-- ===== src/Numeral.antt =====
-- Python's text of numbers: str(n), f"0x{n:04x}" and int(s, 16), on ASCII text.
pub mod RoundTrip
use sctp_probe.Prelude.{
  ℕ, zero, suc, ◌+◌, ◌-◌, ◌*◌, ◌/◌, ◌%◌, Bool, true, false, ◌&&◌, ◌||◌, List, [], ◌∷◌, ◌++◌, Option,
  none, some, Text, codes, ltb, leb, ◌==◌, if◌then◌else◌, ℤ, pos, negsuc, length, replicate,
}
use sctp_probe.Prelude.Int.{neg_ℤ}
use mathlib.Core.List.{reverse}
use mathlib.Core.Option
use sctp_probe.Value.{hex_digit}

-- The digits of `n`, the most significant first. One unit of fuel is a digit.
unfoldable pub digits_of : ℕ → ℕ → ℕ → Text
digits_of base zero n = []
digits_of base (suc fuel) n =
    let front = digits_of base fuel (n / base) in
    (if ltb n base then [] else front) ++ hex_digit (n % base) ∷ []

-- str(n)
unfoldable pub decimal : ℤ → Text
decimal (pos n) = digits_of 10 (suc n) n
decimal (negsuc n) = b'-' ∷ digits_of 10 (suc (suc n)) (suc n)

-- Zeros up to `width` places.
abbrev pub padded : ℕ → Text → Text
padded width s = replicate (width - length s) b'0' ++ s

-- f"0x{n:04x}": the width counts a sign.
unfoldable pub hex_04 : ℤ → Text
hex_04 (pos n) = codes "0x" ++ padded 4 (digits_of 16 (suc n) n)
hex_04 (negsuc n) = codes "0x-" ++ padded 3 (digits_of 16 (suc (suc n)) (suc n))

unfoldable pub is_space : ℕ → Bool
is_space c = (leb 9 c && leb c 13) || (leb 28 c && leb c 32)

unfoldable pub strip_left : Text → Text
unfolding is_space
strip_left [] = []
strip_left (c ∷ s) = if is_space c then strip_left s else c ∷ s

unfoldable pub strip : Text → Text
unfolding strip_left
strip s = reverse (strip_left (reverse (strip_left s)))

unfoldable pub digit_value : ℕ → Option ℕ
digit_value c =
    if leb b'0' c && leb c b'9'
    then some (c - 48)
    else if leb b'a' c && leb c b'f'
    then some (c - 87)
    else if leb b'A' c && leb c b'F'
    then some (c - 55)
    else none

-- One character behind `acc`; `gap` says that no digit stands right before it.
unfoldable pub read_digit : ℕ → Bool → ℕ → Option (ℕ × Bool)
unfolding digit_value
read_digit acc gap c =
    if c == b'_'
    then (if gap then none else some (acc, true))
    else Option.map (λ d. (acc * 16 + d, false)) (digit_value c)

unfoldable pub scan : ℕ → Bool → Text → Option ℕ
scan acc gap [] = if gap then none else some acc
scan acc gap (c ∷ s) = elim (read_digit acc gap c) [
  | none ↦ none
  | some (acc', gap') ↦ scan acc' gap' s
]

drop_underscore : Text → Text
drop_underscore [] = []
drop_underscore (c ∷ s) = if c == b'_' then s else c ∷ s

unfoldable pub drop_prefix : Text → Text
unfolding drop_underscore
drop_prefix (a ∷ b ∷ s) =
    if a == b'0' && (b == b'x' || b == b'X') then drop_underscore s else a ∷ b ∷ s
drop_prefix s = s

unfoldable pub read_unsigned : Text → Option ℕ
unfolding drop_prefix
read_unsigned s = scan 0 true (drop_prefix s)

unfoldable pub read_signed : Text → Option ℤ
unfolding read_unsigned
read_signed [] = none
read_signed (c ∷ s) =
    if c == b'-'
    then Option.map (λ n. neg_ℤ (pos n)) (read_unsigned s)
    else Option.map pos (read_unsigned (if c == b'+' then s else c ∷ s))

-- int(s, 16); `none` is a ValueError.
unfoldable pub int_16 : Text → Option ℤ
unfolding strip read_signed
int_16 s = read_signed (strip s)
