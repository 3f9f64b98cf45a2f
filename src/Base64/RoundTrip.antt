-- ===== src/Base64/RoundTrip.antt =====
-- b64decode undoes b64encode.
use sctp_probe.Prelude.{
  ℕ, ◌+◌, ◌*◌, ◌/◌, ◌%◌, ◌<◌, ◌≡◌, refl, List, [], ◌∷◌, some, Text, arith, All,
}
use mathlib.Core.Option
use sctp_probe.Base64.{sextet, b64encode, Quad, start, on_value, on_char, read, b64decode}

-- A byte string.
abbrev pub AreBytes : List ℕ → Type 0
AreBytes = All (λ b. b < 256)

on_char-sextet : (q : Quad) (v : ℕ) → v < 64 → on_char q (sextet v) ≡ on_value q v
unfolding on_char sextet
on_char-sextet q v h = ground arith

abbrev at : ℕ → ℕ → Quad
at place left = record { place = place; left = left; pads = 0 }

module _ (v : ℕ) (s : Text) (small : v < 64) where
  read-first : read start (sextet v ∷ s) ≡ read (at 1 v) s
  unfolding read on_value
  read-first = rw (on_char-sextet start v small, read)

  read-second :
      (l : ℕ)
      → read (at 1 l) (sextet v ∷ s)
        ≡ Option.map (λ bs. (l * 4 + v / 16) ∷ bs) (read (at 2 (v % 16)) s)
  unfolding read on_value
  read-second l = rw (on_char-sextet (at 1 l) v small, read)

  read-third :
      (l : ℕ)
      → read (at 2 l) (sextet v ∷ s)
        ≡ Option.map (λ bs. (l * 16 + v / 4) ∷ bs) (read (at 3 (v % 4)) s)
  unfolding read on_value
  read-third l = rw (on_char-sextet (at 2 l) v small, read)

  read-fourth :
      (l : ℕ) → read (at 3 l) (sextet v ∷ s) ≡ Option.map (λ bs. (l * 64 + v) ∷ bs) (read start s)
  unfolding read on_value
  read-fourth l = rw (on_char-sextet (at 3 l) v small, read)

read-group :
    (a b c : ℕ) (s : Text) (bs : List ℕ)
    → a < 256
    → b < 256
    → c < 256
    → read start s ≡ some bs
    → read start (
        sextet (a / 4)
        ∷ sextet (a % 4 * 16 + b / 16)
        ∷ sextet (b % 16 * 4 + c / 64)
        ∷ sextet (c % 64)
        ∷ s)
      ≡ some (a ∷ b ∷ c ∷ bs)
read-group a b c s bs ha hb hc h =
    rw
      (
        read-first (a / 4) _ (omega arith),
        read-second (a % 4 * 16 + b / 16) _ (omega arith) (a / 4),
        read-third (b % 16 * 4 + c / 64) _ (omega arith) ((a % 4 * 16 + b / 16) % 16),
        read-fourth (c % 64) _ (omega arith) ((b % 16 * 4 + c / 64) % 4),
        h,
      )
      (ground arith)

read-two : (a b : ℕ) → a < 256 → b < 256 → b64decode (b64encode (a ∷ b ∷ [])) ≡ some (a ∷ b ∷ [])
unfolding b64encode b64decode
read-two a b ha hb =
    rw
      (
        read-first (a / 4) _ (omega arith),
        read-second (a % 4 * 16 + b / 16) _ (omega arith) (a / 4),
        read-third (b % 16 * 4) _ (omega arith) ((a % 4 * 16 + b / 16) % 16),
      )
      (unfold read on_char in ground arith)

read-one : (a : ℕ) → a < 256 → b64decode (b64encode (a ∷ [])) ≡ some (a ∷ [])
unfolding b64encode b64decode
read-one a ha =
    rw (read-first (a / 4) _ (omega arith), read-second (a % 4 * 16) _ (omega arith) (a / 4))
      (unfold read on_char in ground arith)

-- Decoding the Base64 text of a byte string gives the byte string back.
pub b64decode-b64encode : (bs : List ℕ) → AreBytes bs → b64decode (b64encode bs) ≡ some bs
unfolding b64decode b64encode read
b64decode-b64encode [] h = refl
b64decode-b64encode (a ∷ []) h = read-one a h.0
b64decode-b64encode (a ∷ b ∷ []) h = read-two a b h.0 h.1.0
b64decode-b64encode (a ∷ b ∷ c ∷ bs) h =
    read-group a b c (b64encode bs) bs h.0 h.1.0 h.1.1.0 (b64decode-b64encode bs h.1.1.1)
