-- ===== src/Decoder/Raw.antt =====
-- What `decode` keeps of the bytes, whatever pycrate makes of them.
use sctp_probe.Prelude.{
  ℕ, ◌≡◌, refl, ◌⊎◌, inl, inr, true, List, [], ◌∷◌, Option, none, some, codes, ◌∙◌, ap, is_some,
  ◌≢◌,
}
use sctp_probe.Value.{PyVal, dict}
use sctp_probe.Value.Access.{◌>>=◌}
use sctp_probe.Base64.{b64encode, b64decode}
use sctp_probe.Base64.RoundTrip.{AreBytes, b64decode-b64encode}
use sctp_probe.Pycrate.{Pycrate}
use sctp_probe.Decoder.{DecodedMessage, decode, Found, find_parts, message_of, blank, hex_spaced}

-- Either nothing was decoded and every field but the raw ones is at its default, or the message is
-- an SBc-AP PDU with its fields.
abbrev pub IsTold : DecodedMessage → List ℕ → Type 0
IsTold d raw =
    (d ≡ record blank { raw_hex = hex_spaced raw; raw_bytes_b64 = b64encode raw })
    ⊎ ((d.protocol ≡ codes "SBc-AP")
        × (is_some d.decoded ≡ true)
        × (d.raw_hex ≡ hex_spaced raw)
        × (d.raw_bytes_b64 ≡ b64encode raw))

message_of-IsTold :
    (raw : List ℕ) (found : Option Found)
    → IsTold
        (message_of
          (record blank { raw_hex = hex_spaced raw; raw_bytes_b64 = b64encode raw })
          found)
        raw
unfolding message_of
message_of-IsTold raw none = inl refl
message_of-IsTold raw (some f) = inr (refl, refl, refl, refl)

-- Both kinds of message have the two texts of the bytes.
pub decode-IsTold : (py : Pycrate) (raw : List ℕ) → IsTold (decode py raw) raw
unfolding decode
decode-IsTold py [] = inl refl
decode-IsTold py (b ∷ bs) = message_of-IsTold (b ∷ bs) _

-- Whatever bytes come in, the Base64 text that `decode` gives for them, and that is stored, decodes
-- to them again.
pub decode_keeps_bytes :
    (py : Pycrate) (raw : List ℕ)
    → AreBytes raw
    → b64decode (decode py raw).raw_bytes_b64 ≡ some raw
decode_keeps_bytes py raw h = elim (decode-IsTold py raw) [
  | inl e ↦ ap (λ (d : DecodedMessage). b64decode d.raw_bytes_b64) e ∙ b64decode-b64encode raw h
  | inr (_, _, _, e) ↦ ap b64decode e ∙ b64decode-b64encode raw h
]

-- Nothing but the texts of the bytes is known.
pub record IsBare (d : DecodedMessage) : Type 0 where
  pub protocol : d.protocol ≡ codes "raw"
  pub pdu_type : d.pdu_type ≡ none
  pub message_identifier : d.message_identifier ≡ none
  pub serial_number : d.serial_number ≡ none
  pub decoded : d.decoded ≡ none

-- The message is an SBc-AP PDU with the fields that were found in it.
pub record IsPdu (f : Found) (d : DecodedMessage) : Type 0 where
  pub protocol : d.protocol ≡ codes "SBc-AP"
  pub pdu_type : d.pdu_type ≡ f.pdu_type
  pub message_identifier : d.message_identifier ≡ f.message_identifier
  pub serial_number : d.serial_number ≡ f.serial_number
  pub decoded : d.decoded ≡ some (dict f.decoded)

-- The bytes are not empty, pycrate reads a value from them, and `f` is found in it.
pub record IsFound (py : Pycrate) (raw : List ℕ) (f : Found) : Type 0 where
  pub not_empty : raw ≢ []
  pub value : PyVal
  pub is_read : py.from_aper raw ≡ some value
  pub is_found : find_parts py.repr value ≡ some f

-- Whatever bytes come in and whatever pycrate does with them, the Base64 text of the decoded message
-- gives the bytes back. The message has the fields that are found in the value that pycrate reads, if
-- it reads one that has all of them; if not, and for empty bytes, which pycrate is not asked about, it
-- has none.
pub decode_lem :
    (py : Pycrate) (raw : List ℕ)
    → AreBytes raw
    → let d = decode py raw in
      (b64decode d.raw_bytes_b64 ≡ some raw)
      × (((f : Found) × IsFound py raw f × IsPdu f d)
          ⊎ (((f : Found) → ¬ IsFound py raw f) × IsBare d))
unfolding decode message_of
decode_lem py [] h = (
  decode_keeps_bytes py [] h,
  inr (
    λ f found. found.not_empty refl,
    record {
      protocol = refl;
      pdu_type = refl;
      message_identifier = refl;
      serial_number = refl;
      decoded = refl;
    },
  ),
)
decode_lem py (b ∷ bs) h = (decode_keeps_bytes py (b ∷ bs) h, at (py.from_aper (b ∷ bs)) refl)
  where
    raw : DecodedMessage
    raw = record blank { raw_hex = hex_spaced (b ∷ bs); raw_bytes_b64 = b64encode (b ∷ bs) }

    bare : IsBare raw
    bare = record {
      protocol = refl;
      pdu_type = refl;
      message_identifier = refl;
      serial_number = refl;
      decoded = refl;
    }

    at_parts :
        (v : PyVal) (o : Option Found)
        → py.from_aper (b ∷ bs) ≡ some v
        → find_parts py.repr v ≡ o
        → ((f : Found) × IsFound py (b ∷ bs) f × IsPdu f (message_of raw o))
          ⊎ (((f : Found) → ¬ IsFound py (b ∷ bs) f) × IsBare (message_of raw o))
    at_parts v none read found = inr (
      λ f g. let same : g.value ≡ v = cc (read, g.is_read) in absurd (cc (same, found, g.is_found)),
      bare,
    )
    at_parts v (some f) read found = inl (
      f,
      record { not_empty = λ e. absurd (cc e); value = v; is_read = read; is_found = found },
      record {
        protocol = refl;
        pdu_type = refl;
        message_identifier = refl;
        serial_number = refl;
        decoded = refl;
      },
    )

    at :
        (o : Option PyVal)
        → py.from_aper (b ∷ bs) ≡ o
        → let found = o >>= find_parts py.repr in
          ((f : Found) × IsFound py (b ∷ bs) f × IsPdu f (message_of raw found))
          ⊎ (((f : Found) → ¬ IsFound py (b ∷ bs) f) × IsBare (message_of raw found))
    at none read = inr (λ f g. absurd (cc (read, g.is_read)), bare)
    at (some v) read = at_parts v (find_parts py.repr v) read refl
