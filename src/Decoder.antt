-- ===== src/Decoder.antt =====
-- sctp_probe/decoder.py. pycrate is a parameter; an exception inside the `try` block is `none`, and
-- `decode` falls back to the raw message there.
pub mod Raw
pub mod Pdus
use sctp_probe.Prelude.{
  ℕ, ◌/◌, ◌%◌, Bool, true, false, ◌&&◌, List, [], ◌∷◌, ◌++◌, Option, none, some, Text, codes,
  text_eq, ◌==◌, if◌then◌else◌, ℤ, pos, negsuc, eq_ℤ, or_default,
}
use mathlib.Core.Option
use sctp_probe.Value.{
  PyVal, Items, Fields, null, boolean, int, str, bytes, tuple, list, dict, nil, cons, end, field,
  hex_digit,
}
use sctp_probe.Value.Access.{
  ◌>>=◌, is_hashable, get_key, set_field, unpack_two, iterate, format_04, second_of_tuple, text_of,
  key_of,
}
use sctp_probe.Numeral.{hex_04}
use sctp_probe.Base64.{b64encode}
use sctp_probe.Pycrate.{Pycrate}

pub record DecodedMessage : Type 0 where
  pub protocol : Text
  pub pdu_type : Option Text
  pub message_identifier : Option Text
  pub serial_number : Option Text
  pub decoded : Option PyVal
  pub raw_hex : Text
  pub raw_bytes_b64 : Text

-- The defaults of the dataclass.
abbrev pub blank : DecodedMessage
blank = record {
  protocol = codes "raw";
  pdu_type = none;
  message_identifier = none;
  serial_number = none;
  decoded = none;
  raw_hex = [];
  raw_bytes_b64 = [];
}

-- bytes.hex(" ")
unfoldable pub hex_spaced : List ℕ → Text
unfolding hex_digit
hex_spaced [] = []
hex_spaced (b ∷ []) = hex_digit (b / 16) ∷ hex_digit (b % 16) ∷ []
hex_spaced (b ∷ c ∷ bs) = hex_digit (b / 16) ∷ hex_digit (b % 16) ∷ b' ' ∷ hex_spaced (c ∷ bs)

abbrev pub ie_msg_id : ℕ
ie_msg_id = 5

abbrev pub ie_serial : ℕ
ie_serial = 11

-- _PROC_MAP
unfoldable pub proc_map : ℤ → Option (Text × Text)
proc_map code =
    if eq_ℤ code (pos 0)
    then some (codes "WRR_REQ", codes "WRR_RESP")
    else if eq_ℤ code (pos 1)
    then some (codes "SWR_REQ", codes "SWR_RESP")
    else if eq_ℤ code (pos 2)
    then some (codes "ERR_IND", codes "ERR_IND")
    else if eq_ℤ code (pos 3)
    then some (codes "WRWI", codes "WRWI")
    else if eq_ℤ code (pos 4)
    then some (codes "SWI", codes "SWI")
    else if eq_ℤ code (pos 5)
    then some (codes "PWS_RESTART", codes "PWS_RESTART")
    else if eq_ℤ code (pos 6)
    then some (codes "PWS_FAILURE", codes "PWS_FAILURE")
    else none

-- `_PROC_MAP.get(v)`; the outer `none` is the TypeError of a value that is not hashable. A Boolean is
-- the integer 0 or 1, and a value that is no integer is no key of the map.
unfoldable pub proc_keys : PyVal → Option (Option (Text × Text))
unfolding is_hashable proc_map
proc_keys (int n) = some (proc_map n)
proc_keys (boolean b) = some (proc_map (pos (if b then 1 else 0)))
proc_keys v = if is_hashable v then some none else none

same_id : Option PyVal → ℕ → Bool
same_id (some (int n)) k = eq_ℤ n (pos k)
same_id (some (boolean b)) k = (if b then 1 else 0) == k
same_id _ k = false

-- _ie_val: the outer `none` is an exception.
unfoldable pub ie_val : Items → ℕ → Option PyVal
unfolding same_id get_key
ie_val nil k = some null
ie_val (cons ie ies) k = get_key (codes "id") ie >>= λ id.
    if same_id id k
    then (get_key (codes "value") ie >>= λ v. some (or_default v null))
    else ie_val ies k

-- _hex_str: the inner `none` is None.
unfoldable pub hex_str : PyVal → Option (Option Text)
unfolding format_04
hex_str (tuple nil) = none
hex_str (tuple (cons v vs)) = format_04 v >>= λ s. some (some s)
hex_str (int n) = some (some (hex_04 n))
hex_str (boolean b) = some (some (hex_04 (pos (if b then 1 else 0))))
hex_str _ = some none

unfoldable pub direction_is : PyVal → Text → Bool
direction_is (str s) t = text_eq s t
direction_is _ t = false

unfoldable pub pdu_type_of : Option (Text × Text) → PyVal → Option Text
pdu_type_of none direction_str = none
pdu_type_of (some keys) direction_str =
    some (if direction_is direction_str (codes "initiatingMessage") then keys.0 else keys.1)

-- `msg_val[0]` raises on the empty tuple, although the name is not used.
unfoldable pub msg_body_of : PyVal → Option PyVal
msg_body_of (tuple nil) = none
msg_body_of (tuple (cons name nil)) = some (dict end)
msg_body_of (tuple (cons name (cons body xs))) = some body
msg_body_of _ = some (dict end)

add_value : (PyVal → Text) → Fields → PyVal → PyVal → Option Fields
add_value repr result ie_id (tuple (cons name (cons val nil))) =
    key_of name >>= λ key. some (set_field key val result)
add_value repr result ie_id ie_val = some (set_field (text_of repr ie_id) ie_val result)

-- One turn of the loop of _ies_to_dict.
add_ie : (PyVal → Text) → Fields → PyVal → Option Fields
add_ie repr result ie = do
  ie_id ← get_key (codes "id") ie
  ie_val ← get_key (codes "value") ie
  add_value repr result (or_default ie_id null) (or_default ie_val null)

-- _ies_to_dict
unfoldable pub ies_to_dict : (PyVal → Text) → Fields → Items → Option Fields
unfolding add_ie add_value get_key set_field text_of key_of
ies_to_dict repr result nil = some result
ies_to_dict repr result (cons ie ies) =
    add_ie repr result ie >>= λ result'. ies_to_dict repr result' ies

-- What the `try` block of `decode` finds in a PDU's value.
pub record Found : Type 0 where
  pub pdu_type : Option Text
  pub message_identifier : Option Text
  pub serial_number : Option Text
  pub decoded : Fields

-- The `try` block from get_val on.
unfoldable pub find_parts : (PyVal → Text) → PyVal → Option Found
unfolding unpack_two get_key proc_keys msg_body_of iterate pdu_type_of direction_is ie_val
    second_of_tuple hex_str ies_to_dict
find_parts repr val = do
  (direction_str, body) ← unpack_two val
  proc_code ← get_key (codes "procedureCode") body
  msg_val ← get_key (codes "value") body
  msg_body ← msg_body_of (or_default msg_val (tuple (cons (str []) (cons (dict end) nil))))
  found ← get_key (codes "protocolIEs") msg_body
  keys ← proc_keys (or_default proc_code (int (negsuc 0)))
  ies ← iterate (or_default found (list nil))
  mi_raw ← ie_val ies ie_msg_id
  sn_raw ← ie_val ies ie_serial
  mi_val ← second_of_tuple mi_raw
  sn_val ← second_of_tuple sn_raw
  mi ← hex_str mi_val
  sn ← hex_str sn_val
  decoded ← ies_to_dict repr end ies
  some (record {
    pdu_type = pdu_type_of keys direction_str;
    message_identifier = mi;
    serial_number = sn;
    decoded = decoded;
  })

unfoldable pub message_of : DecodedMessage → Option Found → DecodedMessage
message_of raw none = raw
message_of raw (some f) = record raw {
  protocol = codes "SBc-AP";
  pdu_type = f.pdu_type;
  message_identifier = f.message_identifier;
  serial_number = f.serial_number;
  decoded = some (dict f.decoded);
}

is_empty : List ℕ → Bool
is_empty [] = true
is_empty (b ∷ bs) = false

unfoldable pub decode : Pycrate → List ℕ → DecodedMessage
unfolding is_empty hex_spaced b64encode message_of
decode py raw_bytes =
    let raw = record blank {
      raw_hex = hex_spaced raw_bytes;
      raw_bytes_b64 = b64encode raw_bytes;
    } in
    if is_empty raw_bytes
    then raw
    else message_of raw (py.from_aper raw_bytes >>= find_parts py.repr)

unfoldable pub peek_pdu_type : Pycrate → List ℕ → Option Text
unfolding decode
peek_pdu_type py raw_bytes = (decode py raw_bytes).pdu_type
