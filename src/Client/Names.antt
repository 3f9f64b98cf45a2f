-- ===== src/Client/Names.antt =====
-- The names of connections: conn-1, conn-2, … are never given twice.
use sctp_probe.Prelude.{
  ℕ, zero, suc, ◌+◌, ◌-◌, ◌*◌, ◌/◌, ◌%◌, ◌<◌, ◌≡◌, refl, [], ◌∷◌, ◌++◌, Text, arith, drop, ap, sym,
  ◌∙◌, ltb, Bool-cases, inl, inr,
}
use sctp_probe.Value.{hex_digit}
use sctp_probe.Numeral.{decimal, digits_of}
use sctp_probe.Client.{conn_id}

-- The number that decimal digits stand for.
number : ℕ → Text → ℕ
number acc [] = acc
number acc (c ∷ s) = number (acc * 10 + (c - b'0')) s

number-append :
    (acc : ℕ) (s : Text) (c : ℕ) → number acc (s ++ c ∷ []) ≡ number acc s * 10 + (c - b'0')
unfolding number
number-append acc [] c = refl
number-append acc (a ∷ s) c = number-append (acc * 10 + (a - b'0')) s c

digit_lem : (d : ℕ) → d < 10 → hex_digit d - b'0' ≡ d
unfolding hex_digit
digit_lem d h = ground arith

number-digits_of : (fuel n : ℕ) → n < fuel → number 0 (digits_of 10 fuel n) ≡ n
unfolding digits_of
number-digits_of zero n h = absurd (omega arith)
number-digits_of (suc fuel) n h = elim (Bool-cases (ltb n 10)) [
  | inl small ↦ rw small (unfold number in ground (arith, digit_lem (n % 10) (omega arith)))
  | inr large ↦ rw large (
      number-append 0 (digits_of 10 fuel (n / 10)) (hex_digit (n % 10))
      ∙ ground (arith, number-digits_of fuel (n / 10), digit_lem (n % 10)))
]

pub conn_id-inj : (m n : ℕ) → conn_id m ≡ conn_id n → m ≡ n
unfolding conn_id decimal
conn_id-inj m n e =
    sym (number-digits_of (suc m) m (omega arith))
    ∙ ap (λ t. number 0 (drop 5 t)) e
    ∙ number-digits_of (suc n) n (omega arith)
