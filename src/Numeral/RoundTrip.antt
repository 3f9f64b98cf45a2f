-- ===== src/Numeral/RoundTrip.antt =====
-- int(f"0x{n:04x}", 16) is n.
use sctp_probe.Prelude.{
  ℕ, zero, suc, ◌+◌, ◌-◌, ◌*◌, ◌/◌, ◌%◌, ◌<◌, ◌≡◌, refl, Bool, true, false, [], ◌∷◌, ◌++◌, some,
  Text, codes, arith, ltb, if◌then◌else◌, pos, replicate, length, ap, ◌∙◌, sym, subst, Bool-cases,
  inl, inr,
}
use mathlib.Core.List.{append-nil, reverse, append_assoc, reverse-append, reverse-reverse}
use mathlib.Core.Option
use sctp_probe.Value.{hex_digit}
use sctp_probe.Numeral.{
  digits_of, hex_04, is_space, strip_left, strip, read_digit, scan, read_signed, read_unsigned,
  drop_underscore, int_16, padded,
}

read_digit-hex_digit :
    (d acc : ℕ) (gap : Bool)
    → d < 16
    → read_digit acc gap (hex_digit d) ≡ some (acc * 16 + d, false)
unfolding read_digit hex_digit
read_digit-hex_digit d acc gap h = ground arith

scan-hex_digit :
    (d acc : ℕ) (gap : Bool) (s : Text)
    → d < 16
    → scan acc gap (hex_digit d ∷ s) ≡ scan (acc * 16 + d) false s
unfolding scan
scan-hex_digit d acc gap s h = rw (read_digit-hex_digit d acc gap h, scan)

scan-digits_of :
    (fuel n : ℕ) (gap : Bool) (s : Text)
    → n < fuel
    → scan 0 gap (digits_of 16 fuel n ++ s) ≡ scan n false s
unfolding digits_of
scan-digits_of zero n gap s h = elim h [ ]
scan-digits_of (suc fuel) n gap s h = elim (Bool-cases (ltb n 16)) [
  | inl small ↦
      rw small
        (scan-hex_digit (n % 16) 0 gap s (omega arith) ∙ ap (λ a. scan a false s) (ground arith))
  | inr large ↦ rw large (
      ap (scan 0 gap) (append_assoc (digits_of 16 fuel (n / 16)) (hex_digit (n % 16) ∷ []) s)
      ∙ scan-digits_of fuel (n / 16) gap (hex_digit (n % 16) ∷ s) (ground arith)
      ∙ scan-hex_digit (n % 16) (n / 16) false s (omega arith)
      ∙ ap (λ a. scan a false s) (omega arith))
]

scan-zeros :
    (k : ℕ) (s : Text) (n : ℕ)
    → ((gap : Bool) → scan 0 gap s ≡ some n)
    → (gap : Bool) → scan 0 gap (replicate k b'0' ++ s) ≡ some n
unfolding scan read_digit
scan-zeros zero s n h gap = h gap
scan-zeros (suc k) s n h gap = ground (arith, scan-zeros k s n h false)

-- A text whose first and last characters are no spaces is stripped of nothing.
strip_lem :
    (c : ℕ) (s : Text) (d : ℕ)
    → is_space c ≡ false
    → is_space d ≡ false
    → strip (c ∷ s ++ d ∷ []) ≡ c ∷ s ++ d ∷ []
unfolding strip strip_left
strip_lem c s d hc hd =
    let t : Text = c ∷ s in
    rw hc (
      ap (λ x. reverse (strip_left x)) (reverse-append t (d ∷ []))
      ∙ rw hd (ap reverse (sym (reverse-append t (d ∷ []))) ∙ reverse-reverse (t ++ d ∷ [])))

is_space-hex_digit : (d : ℕ) → d < 16 → is_space (hex_digit d) ≡ false
unfolding is_space hex_digit
is_space-hex_digit d h = ground arith

-- A number has no underscore in front.
drop_underscore_lem : (s : Text) (n : ℕ) → scan 0 true s ≡ some n → drop_underscore s ≡ s
unfolding drop_underscore scan read_digit
drop_underscore_lem [] n h = refl
drop_underscore_lem (c ∷ s) n h = ground arith

scan-padded : (n : ℕ) → scan 0 true (padded 4 (digits_of 16 (suc n) n)) ≡ some n
unfolding scan
scan-padded n =
    let ds = digits_of 16 (suc n) n in
    scan-zeros (4 - length ds) ds n
      (λ gap. ap (scan 0 gap) (sym (append-nil ds)) ∙ scan-digits_of (suc n) n gap [] (omega arith))
      true

read_unsigned-padded :
    (n : ℕ) → read_unsigned (codes "0x" ++ padded 4 (digits_of 16 (suc n) n)) ≡ some n
unfolding read_unsigned
read_unsigned-padded n =
    ap (scan 0 true) (drop_underscore_lem (padded 4 (digits_of 16 (suc n) n)) n (scan-padded n))
    ∙ scan-padded n

strip-hex_04 : (n : ℕ) → strip (hex_04 (pos n)) ≡ hex_04 (pos n)
unfolding hex_04 digits_of is_space
strip-hex_04 n =
    let front : Text = (if ltb n 16 then [] else digits_of 16 n (n / 16)) in
    let zeros : Text = replicate (4 - length (digits_of 16 (suc n) n)) b'0' in
    let d : ℕ = hex_digit (n % 16) in
    let whole : b'0' ∷ (b'x' ∷ zeros ++ front) ++ d ∷ [] ≡ hex_04 (pos n) =
      ap (λ s. b'0' ∷ b'x' ∷ s) (append_assoc zeros front (d ∷ [])) in
    subst (λ s. strip s ≡ s) whole
      (strip_lem b'0' (b'x' ∷ zeros ++ front) d refl (is_space-hex_digit (n % 16) (omega arith)))

read_signed-hex_04 : (n : ℕ) → read_signed (hex_04 (pos n)) ≡ some (pos n)
unfolding read_signed hex_04
read_signed-hex_04 n = ap (Option.map pos) (read_unsigned-padded n)

-- Whatever non-negative number a message identifier or a serial number is, the text that the decoder
-- prints for it is read back by the encoder as that number.
pub int_16-hex_04 : (n : ℕ) → int_16 (hex_04 (pos n)) ≡ some (pos n)
unfolding int_16
int_16-hex_04 n = rw (strip-hex_04 n) (read_signed-hex_04 n)
