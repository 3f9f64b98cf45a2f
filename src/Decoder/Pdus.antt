-- ===== src/Decoder/Pdus.antt =====
-- Messages whose PDU has the form that the comments of sctp_probe/decoder.py give.
use sctp_probe.Prelude.{
  ℕ, zero, suc, ◌==◌, ◌≡◌, ◌≢◌, refl, List, [], ◌∷◌, Option, none, some, Text, codes, text_eq, pos,
  arith, if◌then◌else◌, inl, inr, Bool-cases, ℤ,
}
use sctp_probe.Value.{PyVal, Items, Fields, int, str, tuple, list, dict, nil, cons, end, field}
use sctp_probe.Value.Access.{get_key, get_field, set_field, format_04, second_of_tuple}
use sctp_probe.Numeral.{hex_04}
use sctp_probe.Pycrate.{Pycrate}
use sctp_probe.Decoder.{
  decode, Found, find_parts, ie_val, ies_to_dict, proc_map, pdu_type_of, same_id, direction_is,
}

pub record Ie : Type 0 where
  pub id : ℕ
  pub criticality : Text
  pub name : Text
  pub val : PyVal

pub record Pdu : Type 0 where
  pub direction : Text
  pub code : ℕ
  pub criticality : Text
  pub name : Text
  pub ies : List Ie

abbrev couple : PyVal → PyVal → PyVal
couple a b = tuple (cons a (cons b nil))

abbrev ie_value : Ie → PyVal
ie_value i = dict (
    field (codes "id") (int (pos i.id)) (
      field (codes "criticality") (str i.criticality)
        (field (codes "value") (couple (str i.name) i.val) end)))

abbrev items : List Ie → Items
items [] = nil
items (i ∷ is) = cons (ie_value i) (items is)

-- (direction, {procedureCode, criticality, value: (name, {protocolIEs: [...]})})
abbrev pub pdu_value : Pdu → PyVal
pdu_value p = couple (str p.direction) (
    dict (
      field (codes "procedureCode") (int (pos p.code)) (
        field (codes "criticality") (str p.criticality) (
          field (codes "value")
            (couple (str p.name) (dict (field (codes "protocolIEs") (list (items p.ies)) end)))
            end))))

-- The first IE with this id.
abbrev pub first_ie : ℕ → List Ie → Option Ie
first_ie k [] = none
first_ie k (i ∷ is) = if i.id == k then some i else first_ie k is

abbrev nth : ℕ → List Text → Option Text
nth n [] = none
nth zero (t ∷ ts) = some t
nth (suc n) (t ∷ ts) = nth n ts

-- The procedures in the order of their codes, as requests and as responses.
abbrev pub type_of : Text → ℕ → Option Text
type_of direction code = nth code (
    if text_eq direction (codes "initiatingMessage")
    then codes "WRR_REQ"
      ∷ codes "SWR_REQ"
      ∷ codes "ERR_IND"
      ∷ codes "WRWI"
      ∷ codes "SWI"
      ∷ codes "PWS_RESTART"
      ∷ codes "PWS_FAILURE"
      ∷ []
    else codes "WRR_RESP"
      ∷ codes "SWR_RESP"
      ∷ codes "ERR_IND"
      ∷ codes "WRWI"
      ∷ codes "SWI"
      ∷ codes "PWS_RESTART"
      ∷ codes "PWS_FAILURE"
      ∷ [])

pdu_type_lem :
    (direction : Text) (code : ℕ)
    → pdu_type_of (proc_map (pos code)) (str direction) ≡ type_of direction code
unfolding pdu_type_of proc_map direction_is
pdu_type_lem direction zero = ground arith
pdu_type_lem direction (suc zero) = ground arith
pdu_type_lem direction (suc (suc zero)) = ground arith
pdu_type_lem direction (suc (suc (suc zero))) = ground arith
pdu_type_lem direction (suc (suc (suc (suc zero)))) = ground arith
pdu_type_lem direction (suc (suc (suc (suc (suc zero))))) = ground arith
pdu_type_lem direction (suc (suc (suc (suc (suc (suc zero)))))) = ground arith
pdu_type_lem direction (suc (suc (suc (suc (suc (suc (suc n))))))) = ground arith

ie_val-first :
    (k : ℕ) (is : List Ie) (i : Ie)
    → first_ie k is ≡ some i
    → ie_val (items is) k ≡ some (couple (str i.name) i.val)
unfolding ie_val get_key get_field text_eq same_id
ie_val-first k [] i e = absurd (cc e)
ie_val-first k (j ∷ is) i e = elim (Bool-cases (j.id == k)) [
  | inl here ↦ ground (arith, here, e)
  | inr later ↦ ground (arith, later, e, ie_val-first k is i)
]

ies_to_dict-items :
    (repr : PyVal → Text) (is : List Ie) (result : Fields)
    → (out : Fields) × (ies_to_dict repr result (items is) ≡ some out)
unfolding ies_to_dict text_eq
ies_to_dict-items repr [] result = (result, refl)
ies_to_dict-items repr (i ∷ is) result = ies_to_dict-items repr is (set_field i.name i.val result)

-- pycrate's value of a bit string
abbrev pub bit_string : ℤ → PyVal
bit_string n = couple (int n) (int (pos 16))

found_parts :
    (repr : PyVal → Text) (p : Pdu) (i j : Ie) (m n : ℤ)
    → first_ie 5 p.ies ≡ some i
    → i.val ≡ bit_string m
    → first_ie 11 p.ies ≡ some j
    → j.val ≡ bit_string n
    → (f : Found) × (find_parts repr (pdu_value p) ≡ some f)
      × (f.pdu_type ≡ type_of p.direction p.code)
      × (f.message_identifier ≡ some (hex_04 m))
      × (f.serial_number ≡ some (hex_04 n))
unfolding find_parts text_eq format_04 second_of_tuple
found_parts repr p i j m n at_5 is_m at_11 is_n =
    let (out, read) = ies_to_dict-items repr p.ies end in
    (
      record {
        pdu_type = pdu_type_of (proc_map (pos p.code)) (str p.direction);
        message_identifier = some (hex_04 m);
        serial_number = some (hex_04 n);
        decoded = out;
      },
      rw (ie_val-first 5 p.ies i at_5, ie_val-first 11 p.ies j at_11, is_m, is_n, read) refl,
      pdu_type_lem p.direction p.code,
      refl,
      refl,
    )

-- If pycrate finds a PDU of this form in the bytes, with the message identifier and the serial number as
-- bit strings among its IEs, the decoded message is of the protocol SBc-AP, its PDU type is the one of
-- its procedure and direction, none for a code without a procedure, and its identifiers are the first
-- such IEs in four hexadecimal digits.
pub decode_pdu :
    (py : Pycrate) (raw : List ℕ) (p : Pdu) (i j : Ie) (m n : ℤ)
    → raw ≢ []
    → py.from_aper raw ≡ some (pdu_value p)
    → first_ie 5 p.ies ≡ some i
    → i.val ≡ bit_string m
    → first_ie 11 p.ies ≡ some j
    → j.val ≡ bit_string n
    → let d = decode py raw in
      (d.protocol ≡ codes "SBc-AP")
      × (d.pdu_type ≡ type_of p.direction p.code)
      × (d.message_identifier ≡ some (hex_04 m))
      × (d.serial_number ≡ some (hex_04 n))
unfolding decode
decode_pdu py [] p i j m n ne e at_5 is_m at_11 is_n = absurd (ne refl)
decode_pdu py (b ∷ bs) p i j m n ne e at_5 is_m at_11 is_n =
    let (f, parts, kind, mi, sn) = found_parts py.repr p i j m n at_5 is_m at_11 is_n in
    rw (e, parts) (refl, kind, mi, sn)
