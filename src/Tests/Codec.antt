-- ===== src/Tests/Codec.antt =====
-- The decoder and the encoder: sctp_probe/decoder.py and sctp_probe/encoder.py
use sctp_probe.Prelude.{
  arith, ◌⊎◌, ◌≡◌, refl, true, [], ◌∷◌, none, some, codes, ℤ, pos, negsuc, ap, ◌∙◌, text_eq,
}
use mathlib.Core.Logic.{ite, if_pos}
use sctp_probe.Prelude.{sym}
use mathlib.Core.Option
use native.Mathlib.Decide.{ℕ_discrete}
use sctp_probe.Value.{PyVal, hex_digit}
use sctp_probe.Numeral.{hex_04, int_16, digits_of, scan, read_digit}
use sctp_probe.Pycrate.{Pycrate}
use sctp_probe.Decoder.{DecodedMessage, decode, blank}
use sctp_probe.Base64.{b64decode}
use sctp_probe.Decoder.{Found}
use sctp_probe.Decoder.Raw.{IsFound, IsPdu, IsBare, decode_lem}
use sctp_probe.Encoder.{encode, no_kwargs, build, mi_sn, wrr_response}
use sctp_probe.Encoder.Echo.{Identified, decode-encode}
use sctp_probe.Encoder.Templates.{Builds, reply, reply_of, build-reply_of}
use sctp_probe.Value.{int}
use sctp_probe.Decoder.Pdus.{Ie, Pdu, pdu_value, bit_string, decode_pdu}

PyVal-discrete : Discrete PyVal
PyVal-discrete = hlevel ℕ_discrete

-- A codec for one value: a WRR_SUCCESS reply with the identifiers 0x1112 and 1.
abbrev success : PyVal
success = wrr_response (pos 0x1112) (pos 1) 0 []

one_value : Pycrate
one_value = record {
  from_aper = λ bytes. some success;
  to_aper = λ v. ite (PyVal-discrete v success) (some (1 ∷ [])) none;
  repr = λ v. [];
}

abbrev request : DecodedMessage
request = record blank {
  pdu_type = some (codes "WRR_REQ");
  message_identifier = some (codes "0x1112");
  serial_number = some (codes "0x0001");
}

hex_04_runs : hex_04 (pos 0x1112) ≡ codes "0x1112"
unfolding hex_04 digits_of hex_digit
hex_04_runs = refl

int_16_runs : int_16 (codes " -0X_1f ") ≡ some (negsuc 30)
unfolding int_16 scan read_digit
int_16_runs = refl

known_success : reply_of (codes "WRR_SUCCESS") ≡ some (reply (codes "WRR_RESP") true)
unfolding reply_of text_eq
known_success = refl

request-Identified : Identified request 0x1112 1
unfolding hex_04 digits_of hex_digit
request-Identified = record { mi_text = refl; sn_text = refl }

built_success : build (codes "WRR_SUCCESS") (pos 0x1112) (pos 1) ≡ some success
unfolding build text_eq
built_success = refl

request_ids : mi_sn (some request) no_kwargs ≡ (pos 0x1112, pos 1)
unfolding mi_sn scan read_digit
request_ids = refl

to_aper-success : one_value.to_aper success ≡ some (1 ∷ [])
unfolding one_value
to_aper-success = if_pos (PyVal-discrete success success) refl (some (1 ∷ [])) none

sent_success : encode one_value (codes "WRR_SUCCESS") (some request) no_kwargs ≡ some (1 ∷ [])
unfolding encode
sent_success =
    ap (λ (ids : ℤ × ℤ). Option.bind (build (codes "WRR_SUCCESS") ids.0 ids.1) one_value.to_aper)
      request_ids
    ∙ ap (λ o. Option.bind o one_value.to_aper) built_success
    ∙ (unfold Option.bind in to_aper-success)

back_to_value :
    (v : PyVal)
    → build (codes "WRR_SUCCESS") (pos 0x1112) (pos 1) ≡ some v
    → one_value.to_aper v ≡ some (1 ∷ [])
    → one_value.from_aper (1 ∷ []) ≡ some v
unfolding one_value
back_to_value v h made = sym built_success ∙ h

decode-encode_example :
    let d = decode one_value (1 ∷ []) in
    (d.pdu_type ≡ some (codes "WRR_RESP"))
    × (d.message_identifier ≡ some (codes "0x1112"))
    × (d.serial_number ≡ some (codes "0x0001"))
decode-encode_example =
    decode-encode one_value (codes "WRR_SUCCESS") (reply (codes "WRR_RESP") true) request 0x1112 1
      (1 ∷ []) known_success request-Identified sent_success back_to_value (λ e. cc e)

build-reply_of_example : Builds (codes "WRR_SUCCESS") (reply (codes "WRR_RESP") true)
build-reply_of_example =
    build-reply_of (codes "WRR_SUCCESS") (reply (codes "WRR_RESP") true) known_success

decode_lem_example :
    let d = decode one_value (1 ∷ []) in
    (b64decode d.raw_bytes_b64 ≡ some (1 ∷ []))
    × (((f : Found) × IsFound one_value (1 ∷ []) f × IsPdu f d)
        ⊎ (((f : Found) → ¬ IsFound one_value (1 ∷ []) f) × IsBare d))
decode_lem_example = decode_lem one_value (1 ∷ []) (omega arith, tt)

abbrev mi_found : Ie
mi_found = record {
  id = 5;
  criticality = codes "reject";
  name = codes "Message-Identifier";
  val = bit_string (pos 0x1112);
}

abbrev sn_found : Ie
sn_found = record {
  id = 11;
  criticality = codes "reject";
  name = codes "Serial-Number";
  val = bit_string (pos 1);
}

-- A Write-Replace-Warning-Request with a third IE between the identifiers.
abbrev warning : Pdu
warning = record {
  direction = codes "initiatingMessage";
  code = 0;
  criticality = codes "reject";
  name = codes "Write-Replace-Warning-Request";
  ies =
      mi_found
      ∷ record {
        id = 7;
        criticality = codes "reject";
        name = codes "Repetition-Period";
        val = int (pos 30);
      }
      ∷ sn_found
      ∷ [];
}

abbrev one_pdu : Pycrate
one_pdu = record {
  from_aper = λ bytes. some (pdu_value warning);
  to_aper = λ v. none;
  repr = λ v. [];
}

decode_pdu_example :
    let d = decode one_pdu (0 ∷ []) in
    (d.protocol ≡ codes "SBc-AP")
    × (d.pdu_type ≡ some (codes "WRR_REQ"))
    × (d.message_identifier ≡ some (hex_04 (pos 0x1112)))
    × (d.serial_number ≡ some (hex_04 (pos 1)))
unfolding text_eq
decode_pdu_example =
    decode_pdu one_pdu (0 ∷ []) warning mi_found sn_found (pos 0x1112) (pos 1) (λ e. absurd (cc e))
      refl refl refl refl refl
