-- ===== src/Encoder/Templates.antt =====
-- The template names of sctp_probe/encoder.py, as a table of what each stands for, against `build`.
use sctp_probe.Prelude.{
  ◌≡◌, refl, Bool, true, false, List, [], ◌∷◌, Option, none, some, Text, codes, text_eq, text_eq→eq,
  if◌then◌else◌, ℤ, arith, All, Bool-cases, inl, inr, subst,
}
use mathlib.Core.Option
use sctp_probe.Value.{PyVal}
use sctp_probe.Numeral.{hex_04}
use sctp_probe.Decoder.{Found, find_parts}
use sctp_probe.Encoder.{build, wrr_response, swr_response, err_ind, wrwi, swi, partial_tai}

pub record TemplateReply : Type 0 where
  pub pdu_type : Text
  pub carries_ids : Bool

abbrev pub reply : Text → Bool → TemplateReply
reply t b = record { pdu_type = t; carries_ids = b }

abbrev pub templates : List (Text × TemplateReply)
templates =
    (codes "WRR_SUCCESS", reply (codes "WRR_RESP") true)
    ∷ (codes "WRR_PARTIAL", reply (codes "WRR_RESP") true)
    ∷ (codes "WRR_PERMANENT_FAILURE", reply (codes "WRR_RESP") true)
    ∷ (codes "WRR_TRANSIENT_FAILURE", reply (codes "WRR_RESP") true)
    ∷ (codes "SWR_SUCCESS", reply (codes "SWR_RESP") true)
    ∷ (codes "SWR_NOT_FOUND", reply (codes "SWR_RESP") true)
    ∷ (codes "ERR_IND_SEMANTIC", reply (codes "ERR_IND") false)
    ∷ (codes "ERR_IND_TRANSFER_SYNTAX", reply (codes "ERR_IND") false)
    ∷ (codes "WRWI_SCHEDULED", reply (codes "WRWI") true)
    ∷ (codes "WRWI_CANCELLED", reply (codes "SWI") true)
    ∷ (codes "SWI_CANCELLED", reply (codes "SWI") true)
    ∷ []

abbrev pub lookup : Text → List (Text × TemplateReply) → Option TemplateReply
lookup name [] = none
lookup name ((t, r) ∷ rows) = if text_eq name t then some r else lookup name rows

unfoldable pub reply_of : Text → Option TemplateReply
reply_of name = lookup name templates

lookup_All :
    (Q : Text → TemplateReply → Type 0) (name : Text) (r : TemplateReply)
    (rows : List (Text × TemplateReply))
    → All (λ row. Q row.0 row.1) rows
    → lookup name rows ≡ some r
    → Q name r
lookup_All Q name r [] h e = absurd (cc e)
lookup_All Q name r ((t, x) ∷ rows) h e = elim (Bool-cases (text_eq name t)) [
  | inl same ↦
      let given : some x ≡ some r = rw same at e in
      let right : x ≡ r = cc given in rw (text_eq→eq name t same) (subst (Q t) right h.0)
  | inr other ↦ lookup_All Q name r rows h.1 (rw other at e)
]

-- The PDU type and the identifiers that the decoder reads from a value.
abbrev pub PduSummary : Type 0
PduSummary = Option Text × Option Text × Option Text

unfoldable pub summary : Option Found → Option PduSummary
summary = Option.map (λ d. (d.pdu_type, d.message_identifier, d.serial_number))

abbrev pub expected : TemplateReply → ℤ → ℤ → PduSummary
expected r mi sn = (
  some r.pdu_type,
  (if r.carries_ids then some (hex_04 mi) else none),
  (if r.carries_ids then some (hex_04 sn) else none),
)

abbrev pub Builds : Text → TemplateReply → Type 0
Builds name r =
    (mi sn : ℤ)
    → (v : PyVal) × (build name mi sn ≡ some v)
      × ((repr : PyVal → Text) → summary (find_parts repr v) ≡ some (expected r mi sn))

All-build : All (λ row. Builds row.0 row.1) templates
unfolding build wrr_response swr_response err_ind wrwi swi find_parts summary text_eq
All-build = (
  λ mi sn. (wrr_response mi sn 0 [], refl, λ repr. refl),
  (
    λ mi sn. (wrr_response mi sn 0 (partial_tai ∷ []), refl, λ repr. refl),
    (
      λ mi sn. (wrr_response mi sn 1 [], refl, λ repr. refl),
      (
        λ mi sn. (wrr_response mi sn 7 [], refl, λ repr. refl),
        (
          λ mi sn. (swr_response mi sn 0, refl, λ repr. refl),
          (
            λ mi sn. (swr_response mi sn 3, refl, λ repr. refl),
            (
              λ mi sn. (err_ind mi sn 14, refl, λ repr. refl),
              (
                λ mi sn. (err_ind mi sn 11, refl, λ repr. refl),
                (
                  λ mi sn. (wrwi mi sn, refl, λ repr. refl),
                  (
                    λ mi sn. (swi mi sn, refl, λ repr. refl),
                    (λ mi sn. (swi mi sn, refl, λ repr. refl), tt),
                  ),
                ),
              ),
            ),
          ),
        ),
      ),
    ),
  ),
)

-- For every template that the table names, the value that the encoder builds for it, from any
-- identifiers, decodes to the PDU type of the table, with these identifiers if the table says so.
-- (WRWI_CANCELLED builds a Stop-Warning-Indication, where the documents have another message.)
pub build-reply_of : (name : Text) (r : TemplateReply) → reply_of name ≡ some r → Builds name r
unfolding reply_of
build-reply_of name r e = lookup_All Builds name r templates All-build e

-- For any other name nothing is built: neither for a timeout template nor for a name that is unknown.
pub build-none : (name : Text) (mi sn : ℤ) → reply_of name ≡ none → build name mi sn ≡ none
unfolding reply_of build
build-none name mi sn e = ground arith
