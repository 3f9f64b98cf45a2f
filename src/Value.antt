-- ===== src/Value.antt =====
-- Python values, as pycrate's decoder returns them and json.dumps takes them.
pub mod Access
use sctp_probe.Prelude.{
  ℕ, ◌≡◌, refl, ap, List, [], ◌∷◌, ◌++◌, ◌+◌, ◌/◌, ◌%◌, Bool, Text, ltb, if◌then◌else◌,
}
use sctp_probe.Prelude.Int.{ℤ}
use mathlib.Core.Path.{ap₂}

mutual
  pub data PyVal : Type 0 where
    null : PyVal
    boolean : Bool → PyVal
    int : ℤ → PyVal
    str : Text → PyVal
    bytes : List ℕ → PyVal
    tuple : Items → PyVal
    list : Items → PyVal
    dict : Fields → PyVal

  pub data Items : Type 0 where
    nil : Items
    cons : PyVal → Items → Items

  pub data Fields : Type 0 where
    end : Fields
    field : Text → PyVal → Fields → Fields

-- A lower case hexadecimal digit.
unfoldable pub hex_digit : ℕ → ℕ
hex_digit d = if ltb d 10 then b'0' + d else 87 + d

-- bytes.hex()
unfoldable pub hex : List ℕ → Text
unfolding hex_digit
hex [] = []
hex (b ∷ bs) = hex_digit (b / 16) ∷ hex_digit (b % 16) ∷ hex bs

-- json.loads(json.dumps(v, default=…)): bytes become their hex digits, tuples become lists.
unfoldable mutual
  pub json : PyVal → PyVal
  json null = null
  json (boolean b) = boolean b
  json (int n) = int n
  json (str s) = str s
  json (bytes b) = str (hex b)
  json (tuple xs) = list (json_items xs)
  json (list xs) = list (json_items xs)
  json (dict fs) = dict (json_fields fs)

  pub json_items : Items → Items
  json_items nil = nil
  json_items (cons x xs) = cons (json x) (json_items xs)

  pub json_fields : Fields → Fields
  json_fields end = end
  json_fields (field k v fs) = field k (json v) (json_fields fs)
