-- ===== src/Export/Checksum.antt =====
-- The Internet checksum (RFC 1071).
use sctp_probe.Prelude.{ℕ, zero, suc, ◌+◌, ◌-◌, ◌/◌, ◌%◌, ◌^◌, ◌<◌, ◌≡◌, refl, List, arith}
use sctp_probe.Export.{sum_words, fold_carries, checksum}

-- What the loop leaves: a 16-bit number, the same modulo 0xFFFF, and 0 only from 0. The fuel `s + 1`
-- is enough for the loop to end by its test.
pub record IsFolded (s r : ℕ) : Type 0 where
  pub small : r < 2 ^ 16
  pub same : r % 65535 ≡ s % 65535
  pub positive : 0 < s → 0 < r

pub fold_carries-IsFolded : (fuel s : ℕ) → s < fuel → IsFolded s (fold_carries fuel s)
unfolding fold_carries
fold_carries-IsFolded zero s h = elim h [ ]
fold_carries-IsFolded (suc fuel) s h =
    ground (arith, fold_carries-IsFolded fuel (s % 2 ^ 16 + s / 2 ^ 16))

complement_bounds :
    (bs : List ℕ) → (r : ℕ) × IsFolded (sum_words bs) r × (checksum bs ≡ 2 ^ 16 - 1 - r % 2 ^ 16)
unfolding checksum
complement_bounds bs =
    let s : ℕ = sum_words bs in
    (fold_carries (suc s) s, fold_carries-IsFolded (suc s) s (omega arith), refl)

folded_full :
    (s r c q : ℕ)
    → 0 < s
    → IsFolded s r
    → c ≡ 2 ^ 16 - 1 - r % 2 ^ 16
    → IsFolded (s + c) q
    → q ≡ 65535
folded_full s r c q h f e g =
    omega (arith, f.small, f.same, f.positive h, g.small, g.same, g.positive (omega arith))

-- The sum of a packet's words as a receiver folds it.
abbrev pub folded : ℕ → ℕ
folded s = fold_carries (suc s) s

-- What a receiver finds (RFC 1071, section 1): the words of a packet together with the checksum of the
-- packet without one fold to 0xFFFF, unless all of them are 0.
pub checksum_verifies :
    (bs : List ℕ)
    → 0 < sum_words bs
    → (checksum bs < 2 ^ 16) × (folded (sum_words bs + checksum bs) ≡ 65535)
checksum_verifies bs h =
    let (r, f, e) = complement_bounds bs in
    let t : ℕ = sum_words bs + checksum bs in
    (
      omega (arith, e),
      folded_full (sum_words bs) r (checksum bs) (fold_carries (suc t) t) h f e
          (fold_carries-IsFolded (suc t) t (omega arith)),
    )
