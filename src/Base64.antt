-- ===== src/Base64.antt =====
-- base64.b64encode and base64.b64decode, as sctp_probe/decoder.py and sctp_probe/export.py use
-- them; the text to decode is ASCII
pub mod RoundTrip
use sctp_probe.Prelude.{
  ℕ, zero, suc, ◌+◌, ◌-◌, ◌*◌, ◌/◌, ◌%◌, Bool, ◌&&◌, List, [], ◌∷◌, Option, none, some, Text, ltb,
  leb, ◌==◌, if◌then◌else◌,
}
use mathlib.Core.Option

-- The character of a group of six bits.
unfoldable pub sextet : ℕ → ℕ
sextet v =
    if ltb v 26
    then v + b'A'
    else if ltb v 52
    then v + 71
    else if ltb v 62
    then v - 4
    else if v == 62
    then b'+'
    else b'/'

unfoldable pub b64encode : List ℕ → Text
unfolding sextet
b64encode [] = []
b64encode (a ∷ []) = sextet (a / 4) ∷ sextet (a % 4 * 16) ∷ b'=' ∷ b'=' ∷ []
b64encode (a ∷ b ∷ []) =
    sextet (a / 4) ∷ sextet (a % 4 * 16 + b / 16) ∷ sextet (b % 16 * 4) ∷ b'=' ∷ []
b64encode (a ∷ b ∷ c ∷ bs) =
    sextet (a / 4)
    ∷ sextet (a % 4 * 16 + b / 16)
    ∷ sextet (b % 16 * 4 + c / 64)
    ∷ sextet (c % 64)
    ∷ b64encode bs

unfoldable pub sextet_value : ℕ → Option ℕ
sextet_value c =
    if leb b'A' c && leb c b'Z'
    then some (c - 65)
    else if leb b'a' c && leb c b'z'
    then some (c - 71)
    else if leb b'0' c && leb c b'9'
    then some (c + 4)
    else if c == b'+'
    then some 62
    else if c == b'/'
    then some 63
    else none

-- The decoder's state between characters: the place in a group of four, the bits that are left over
-- from it, and the count of `=` since the last character of the alphabet.
pub record Quad : Type 0 where
  pub place : ℕ
  pub left : ℕ
  pub pads : ℕ

abbrev pub start : Quad
start = record { place = 0; left = 0; pads = 0 }

-- What one character does: stop reading, be skipped, or yield at most one byte.
pub data Act : Type 0 where
  stop : Act
  go : Quad → Act
  emit : ℕ → Quad → Act

unfoldable pub on_value : Quad → ℕ → Act
on_value q v =
    if q.place == 0
    then go (record { place = 1; left = v; pads = 0 })
    else if q.place == 1
    then emit (q.left * 4 + v / 16) (record { place = 2; left = v % 16; pads = 0 })
    else if q.place == 2
    then emit (q.left * 16 + v / 4) (record { place = 3; left = v % 4; pads = 0 })
    else emit (q.left * 64 + v) (record { place = 0; left = 0; pads = 0 })

-- Padding ends the text once the group has two characters and is full with it; before that, and
-- for characters outside the alphabet, the character is skipped.
unfoldable pub on_pad : Quad → Act
on_pad q =
    if leb 2 q.place
    then (if leb 4 (q.place + suc q.pads) then stop else go (record q { pads = suc q.pads }))
    else go q

unfoldable pub on_char : Quad → ℕ → Act
unfolding on_value on_pad sextet_value
on_char q c =
    if c == b'=' then on_pad q else elim (sextet_value c) [ none ↦ go q | some v ↦ on_value q v ]

-- `none` is binascii.Error: the text ends inside a group.
unfoldable pub read : Quad → Text → Option (List ℕ)
read q [] = if q.place == 0 then some [] else none
read q (c ∷ s) = elim (on_char q c) [
  | stop ↦ some []
  | go q' ↦ read q' s
  | emit b q' ↦ Option.map (λ bs. b ∷ bs) (read q' s)
]

unfoldable pub b64decode : Text → Option (List ℕ)
b64decode s = read start s
