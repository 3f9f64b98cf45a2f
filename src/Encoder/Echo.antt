-- ===== src/Encoder/Echo.antt =====
-- A reply that is encoded for a decoded request, and decoded again.
use sctp_probe.Prelude.{
  ℕ, ℤ, ◌≡◌, refl, ◌≢◌, List, [], ◌∷◌, Option, none, some, Text, pos, ◌∙◌, ap, if◌then◌else◌,
}
use mathlib.Core.Option
use sctp_probe.Value.{PyVal}
use sctp_probe.Numeral.{hex_04}
use sctp_probe.Numeral.RoundTrip.{int_16-hex_04}
use sctp_probe.Pycrate.{Pycrate}
use sctp_probe.Decoder.{DecodedMessage, decode, Found, find_parts, message_of, blank, hex_spaced}
use sctp_probe.Base64.{b64encode}
use sctp_probe.Encoder.{Kwargs, no_kwargs, parse_hex, mi_sn, build, encode}
use sctp_probe.Encoder.Templates.{
  TemplateReply, reply_of, build-reply_of, build-none, PduSummary, summary, expected,
}

-- No bytes are sent for a timeout template or an unknown name, whatever message it answers.
pub encode-none :
    (py : Pycrate) (name : Text) (inbound : Option DecodedMessage) (kwargs : Kwargs)
    → reply_of name ≡ none
    → encode py name inbound kwargs ≡ none
unfolding encode Option.bind
encode-none py name inbound kwargs e =
    ap (λ o. Option.bind o py.to_aper)
      (build-none name (mi_sn inbound kwargs).0 (mi_sn inbound kwargs).1 e)

-- The message was decoded, with these identifiers.
pub record Identified (dm : DecodedMessage) (m n : ℕ) : Type 0 where
  pub mi_text : dm.message_identifier ≡ some (hex_04 (pos m))
  pub sn_text : dm.serial_number ≡ some (hex_04 (pos n))

parse_hex-hex_04 : (n : ℕ) → parse_hex (some (hex_04 (pos n))) ≡ pos n
unfolding parse_hex
parse_hex-hex_04 n = rw (int_16-hex_04 n)

mi_sn-Identified :
    (dm : DecodedMessage) (m n : ℕ) → Identified dm m n → mi_sn (some dm) no_kwargs ≡ (pos m, pos n)
unfolding mi_sn
mi_sn-Identified dm m n k = rw (k.mi_text, k.sn_text, parse_hex-hex_04 m, parse_hex-hex_04 n)

bind-some :
    (o : Option PyVal) (f : PyVal → Option (List ℕ)) (v : PyVal) (raw : List ℕ)
    → o ≡ some v
    → Option.bind o f ≡ some raw
    → f v ≡ some raw
unfolding Option.bind
bind-some o f v raw e h = rw e at h

-- Bytes in which pycrate finds a value with this summary are decoded to this summary.
decode-Found :
    (py : Pycrate) (raw : List ℕ) (v : PyVal) (x : PduSummary)
    → raw ≢ []
    → py.from_aper raw ≡ some v
    → summary (find_parts py.repr v) ≡ some x
    → let d = decode py raw in (d.pdu_type, d.message_identifier, d.serial_number) ≡ x
unfolding decode summary
decode-Found py [] v x ne e h = absurd (ne refl)
decode-Found py (b ∷ bs) v x ne e h = rw e (go (find_parts py.repr v) h)
  where
    go :
        (found : Option Found)
        → summary found ≡ some x
        → let d =
            message_of
              (record blank { raw_hex = hex_spaced (b ∷ bs); raw_bytes_b64 = b64encode (b ∷ bs) })
              found in
          (d.pdu_type, d.message_identifier, d.serial_number) ≡ x
    go none h = absurd (cc h)
    go (some f) h = cc h

-- The reply to a request is told apart and matched to it as the template says. Take a template that
-- builds a PDU, a request that was decoded with numbers for its identifiers, and any reply of at
-- least one byte, and let pycrate read the value that the template builds for these identifiers back
-- from the bytes, if it has made them of this value. Decoding them gives the PDU type of the template, and the message identifier and the serial number of the
-- request; where the template is an Error-Indication, it gives neither. (For WRWI_CANCELLED the type
-- is that of a Stop-Warning-Indication, which is what the code builds; the documents name another.)
pub decode-encode :
    (py : Pycrate) (name : Text) (r : TemplateReply) (dm : DecodedMessage) (m n : ℕ) (raw : List ℕ)
    → reply_of name ≡ some r
    → Identified dm m n
    → encode py name (some dm) no_kwargs ≡ some raw
    → ((v : PyVal)
        → build name (pos m) (pos n) ≡ some v
        → py.to_aper v ≡ some raw
        → py.from_aper raw ≡ some v)
    → raw ≢ []
    → let d = decode py raw in
      (d.pdu_type ≡ some r.pdu_type)
      × (d.message_identifier ≡ (if r.carries_ids then dm.message_identifier else none))
      × (d.serial_number ≡ (if r.carries_ids then dm.serial_number else none))
unfolding encode
decode-encode py name r dm m n raw known k sent back ne =
    let (v, built, read) = build-reply_of name r known (pos m) (pos n) in
    let ids = mi_sn-Identified dm m n k in
    let same = ap (λ (p : ℤ × ℤ). build name p.0 p.1) ids ∙ built in
    let made = bind-some _ py.to_aper v raw same sent in
    let shown =
      decode-Found py raw v (expected r (pos m) (pos n)) ne (back v built made) (read py.repr) in
    (
      ap (λ (s : PduSummary). s.0) shown,
      ap (λ (s : PduSummary). s.1) shown ∙ rw k.mi_text,
      ap (λ (s : PduSummary). s.2) shown ∙ rw k.sn_text,
    )
