-- ===== src/Encoder.antt =====
-- sctp_probe/encoder.py. A PDU is the value that is handed to pycrate's set_val.
pub mod Echo
pub mod Templates
use sctp_probe.Prelude.{
  ℕ, Bool, true, false, ◌||◌, List, [], ◌∷◌, Option, none, some, Text, codes, text_eq,
  if◌then◌else◌, ℤ, pos, or_default,
}
use sctp_probe.Value.{
  PyVal, Items, Fields, null, boolean, int, str, bytes, tuple, list, dict, nil, cons, end, field,
}
use sctp_probe.Numeral.{int_16}
use sctp_probe.Pycrate.{Pycrate}
use sctp_probe.Decoder.{DecodedMessage}
use mathlib.Core.Option

-- _parse_hex with its default 0
unfoldable pub parse_hex : Option Text → ℤ
unfolding int_16
parse_hex none = pos 0
parse_hex (some val) = or_default (int_16 val) (pos 0)

-- `a or b` between values that may be None: the empty text counts as missing.
unfoldable pub or_else : Option Text → Option Text → Option Text
or_else none b = b
or_else (some []) b = b
or_else (some (c ∷ s)) b = some (c ∷ s)

-- The keyword arguments of `encode`.
pub record Kwargs : Type 0 where
  pub message_identifier : Option Text
  pub serial_number : Option Text

abbrev pub no_kwargs : Kwargs
no_kwargs = record { message_identifier = none; serial_number = none }

inbound_mi : Option DecodedMessage → Option Text
inbound_mi none = none
inbound_mi (some dm) = dm.message_identifier

inbound_sn : Option DecodedMessage → Option Text
inbound_sn none = none
inbound_sn (some dm) = dm.serial_number

unfoldable pub mi_sn : Option DecodedMessage → Kwargs → ℤ × ℤ
unfolding parse_hex or_else inbound_mi inbound_sn
mi_sn inbound kwargs = (
  parse_hex (or_else kwargs.message_identifier (inbound_mi inbound)),
  parse_hex (or_else kwargs.serial_number (inbound_sn inbound)),
)

abbrev pair : PyVal → PyVal → PyVal
pair a b = tuple (cons a (cons b nil))

abbrev ie : ℕ → Text → Text → PyVal → PyVal
ie id criticality name val = dict (
    field (codes "id") (int (pos id)) (
      field (codes "criticality") (str criticality)
        (field (codes "value") (pair (str name) val) end)))

abbrev mi_ie : ℤ → PyVal
mi_ie mi = ie 5 (codes "reject") (codes "Message-Identifier") (pair (int mi) (int (pos 16)))

abbrev sn_ie : ℤ → PyVal
sn_ie sn = ie 11 (codes "reject") (codes "Serial-Number") (pair (int sn) (int (pos 16)))

abbrev cause_ie : ℕ → PyVal
cause_ie cause = ie 1 (codes "ignore") (codes "Cause") (int (pos cause))

abbrev pdu : Text → ℕ → Text → Text → Items → PyVal
pdu direction code criticality name ies = pair (str direction) (
    dict (
      field (codes "procedureCode") (int (pos code)) (
        field (codes "criticality") (str criticality) (
          field (codes "value")
            (pair (str name) (dict (field (codes "protocolIEs") (list ies) end))) end))))

abbrev plmn : PyVal
plmn = bytes (0x14 ∷ 0xf6 ∷ 0x10 ∷ [])

abbrev tai_item : PyVal → PyVal
tai_item t = dict (field (codes "tai") t end)

abbrev tai_items : List PyVal → Items
tai_items [] = nil
tai_items (t ∷ ts) = cons (tai_item t) (tai_items ts)

abbrev unknown_tais_ies : List PyVal → Items
unknown_tais_ies [] = nil
unknown_tais_ies (t ∷ ts) =
    cons (ie 22 (codes "ignore") (codes "List-of-TAIs") (list (tai_items (t ∷ ts)))) nil

unfoldable pub wrr_response : ℤ → ℤ → ℕ → List PyVal → PyVal
wrr_response mi sn cause unknown_tais =
    pdu (codes "successfulOutcome") 0 (codes "reject") (codes "Write-Replace-Warning-Response")
      (cons (mi_ie mi) (cons (sn_ie sn) (cons (cause_ie cause) (unknown_tais_ies unknown_tais))))

unfoldable pub swr_response : ℤ → ℤ → ℕ → PyVal
swr_response mi sn cause =
    pdu (codes "successfulOutcome") 1 (codes "reject") (codes "Stop-Warning-Response")
      (cons (mi_ie mi) (cons (sn_ie sn) (cons (cause_ie cause) nil)))

-- The identifiers are arguments that the source does not use either.
unfoldable pub err_ind : ℤ → ℤ → ℕ → PyVal
err_ind mi sn cause =
    pdu (codes "initiatingMessage") 2 (codes "ignore") (codes "Error-Indication")
      (cons (cause_ie cause) nil)

-- _SYNTHETIC_ECGI
abbrev ecgi : PyVal
ecgi = dict (
    field (codes "pLMNidentity") plmn
      (field (codes "cell-ID") (pair (int (pos 0x0123456)) (int (pos 28))) end))

unfoldable pub wrwi : ℤ → ℤ → PyVal
wrwi mi sn =
    pdu (codes "initiatingMessage") 3 (codes "ignore") (codes "Write-Replace-Warning-Indication") (
      cons (mi_ie mi) (
        cons (sn_ie sn) (
          cons
            (ie 23 (codes "reject") (codes "Broadcast-Scheduled-Area-List") (
              dict (
                field (codes "cellId-Broadcast-List")
                  (list (cons (dict (field (codes "eCGI") ecgi end)) nil)) end)))
            nil)))

unfoldable pub swi : ℤ → ℤ → PyVal
swi mi sn = pdu (codes "initiatingMessage") 4 (codes "ignore") (codes "Stop-Warning-Indication") (
    cons (mi_ie mi) (
      cons (sn_ie sn) (
        cons
          (ie 25 (codes "reject") (codes "Broadcast-Cancelled-Area-List") (
            dict (
              field (codes "cellID-Cancelled-List")
                (list (
                  cons
                    (dict (
                      field (codes "eCGI") ecgi
                        (field (codes "numberOfBroadcasts") (int (pos 1)) end)))
                    nil))
                end)))
          nil)))

abbrev partial_tai : PyVal
partial_tai =
    dict (field (codes "pLMNidentity") plmn (field (codes "tAC") (bytes (0x00 ∷ 0x99 ∷ [])) end))

-- The PDU of a template; `none` for the timeout templates and for a name that is no template.
unfoldable pub build : Text → ℤ → ℤ → Option PyVal
build name mi sn =
    if text_eq name (codes "WRR_TIMEOUT") || text_eq name (codes "SWR_TIMEOUT")
    then none
    else if text_eq name (codes "WRR_SUCCESS")
    then some (wrr_response mi sn 0 [])
    else if text_eq name (codes "WRR_PARTIAL")
    then some (wrr_response mi sn 0 (partial_tai ∷ []))
    else if text_eq name (codes "WRR_PERMANENT_FAILURE")
    then some (wrr_response mi sn 1 [])
    else if text_eq name (codes "WRR_TRANSIENT_FAILURE")
    then some (wrr_response mi sn 7 [])
    else if text_eq name (codes "SWR_SUCCESS")
    then some (swr_response mi sn 0)
    else if text_eq name (codes "SWR_NOT_FOUND")
    then some (swr_response mi sn 3)
    else if text_eq name (codes "ERR_IND_SEMANTIC")
    then some (err_ind mi sn 14)
    else if text_eq name (codes "ERR_IND_TRANSFER_SYNTAX")
    then some (err_ind mi sn 11)
    else if text_eq name (codes "WRWI_SCHEDULED")
    then some (wrwi mi sn)
    else if text_eq name (codes "WRWI_CANCELLED")
    then some (swi mi sn)
    else if text_eq name (codes "SWI_CANCELLED")
    then some (swi mi sn)
    else none

-- An exception of pycrate is the result None too.
unfoldable pub encode : Pycrate → Text → Option DecodedMessage → Kwargs → Option (List ℕ)
unfolding build mi_sn
encode py name inbound kwargs =
    let (mi, sn) = mi_sn inbound kwargs in Option.bind (build name mi sn) py.to_aper
