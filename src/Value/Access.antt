-- ===== src/Value/Access.antt =====
-- Python's operations on values whose type is not known: `none` is an exception.
use sctp_probe.Prelude.{
  Bool, true, false, ◌&&◌, [], Option, none, some, Text, codes, text_eq, if◌then◌else◌, pos,
}
use sctp_probe.Value.{
  PyVal, Items, Fields, null, boolean, int, str, bytes, tuple, list, dict, nil, cons, end, field,
}
use sctp_probe.Numeral.{decimal, hex_04}

infixl 5 ◌>>=◌
abbrev pub ◌>>=◌ {ℓ κ} : {A : Type ℓ} {B : Type κ} → Option A → (A → Option B) → Option B
none >>= f = none
some a >>= f = f a

-- Lists and dicts cannot be keys of a dict.
unfoldable mutual
  pub is_hashable : PyVal → Bool
  is_hashable (list xs) = false
  is_hashable (dict fs) = false
  is_hashable (tuple xs) = are_hashable xs
  is_hashable null = true
  is_hashable (boolean b) = true
  is_hashable (int n) = true
  is_hashable (str s) = true
  is_hashable (bytes b) = true

  pub are_hashable : Items → Bool
  are_hashable nil = true
  are_hashable (cons x xs) = is_hashable x && are_hashable xs

unfoldable pub get_field : Text → Fields → Option PyVal
get_field k end = none
get_field k (field j v fs) = if text_eq j k then some v else get_field k fs

-- v.get(k), which only a dict has; the inner `none` is a missing key.
unfoldable pub get_key : Text → PyVal → Option (Option PyVal)
unfolding get_field
get_key k (dict fs) = some (get_field k fs)
get_key k _ = none

-- d[k] = v
unfoldable pub set_field : Text → PyVal → Fields → Fields
set_field k v end = field k v end
set_field k v (field j w fs) = if text_eq j k then field j v fs else field j w (set_field k v fs)

-- `first, second = v`: the items of a sequence of two. A text, a byte string or a dict of two items
-- also unpacks, but `second.get` then raises; so both are one exception.
unfoldable pub unpack_two : PyVal → Option (PyVal × PyVal)
unpack_two (tuple (cons a (cons b nil))) = some (a, b)
unpack_two (list (cons a (cons b nil))) = some (a, b)
unpack_two _ = none

-- `for x in v`, where every x must have `.get`: only a sequence has such items.
unfoldable pub iterate : PyVal → Option Items
iterate (tuple xs) = some xs
iterate (list xs) = some xs
iterate (dict end) = some nil
iterate (str []) = some nil
iterate (bytes []) = some nil
iterate _ = none

-- f"0x{v:04x}"
unfoldable pub format_04 : PyVal → Option Text
format_04 (int n) = some (hex_04 n)
format_04 (boolean b) = some (hex_04 (pos (if b then 1 else 0)))
format_04 _ = none

-- `if isinstance(v, tuple): v = v[1]`
unfoldable pub second_of_tuple : PyVal → Option PyVal
second_of_tuple (tuple (cons a (cons b xs))) = some b
second_of_tuple (tuple xs) = none
second_of_tuple v = some v

-- str(v); `repr` stands for the texts of the other types.
unfoldable pub text_of : (PyVal → Text) → PyVal → Text
text_of repr (str s) = s
text_of repr (int n) = decimal n
text_of repr (boolean true) = codes "True"
text_of repr (boolean false) = codes "False"
text_of repr null = codes "None"
text_of repr v = repr v

-- The key that json.dumps writes for the key `v` of a dict. A dict's key of another type, which
-- json.dumps refuses, is refused here when it is set.
unfoldable pub key_of : PyVal → Option Text
key_of (str s) = some s
key_of (int n) = some (decimal n)
key_of (boolean true) = some (codes "true")
key_of (boolean false) = some (codes "false")
key_of null = some (codes "null")
key_of v = none
