-- ===== src/Table/Find.antt =====
-- Rows by key: what the statements of Table.antt do to each key.
use sctp_probe.Prelude.{
  ℕ, ◌≤◌, ◌<◌, ◌≡◌, refl, not, List, [], ◌∷◌, ◌++◌, Option, none, some, arith, length, filter, ◌==◌,
  if◌then◌else◌, map, is_some, ℤ, pos, eq_ℤ,
}
use sctp_probe.Table.{Row, update_row, Ascending}
use sctp_probe.Table.Order.{Ascending-le}
use mathlib.Core.Option

module _ {ℓ} {A : Type ℓ} where
  -- The columns of the row with the key `k`.
  unfoldable pub find : ℕ → List (Row A) → Option A
  find k [] = none
  find k (r ∷ rs) = if r.id == k then some r.cols else find k rs

  pub find_below :
      (k lo hi : ℕ) (rs : List (Row A)) → Ascending lo hi rs → k ≤ lo → find k rs ≡ none
  unfolding find
  find_below k lo hi [] h b = refl
  find_below k lo hi (r ∷ rs) h b = ground (arith, find_below k r.id hi rs h.1)

  pub find_above :
      (k lo hi : ℕ) (rs : List (Row A)) → Ascending lo hi rs → hi < k → find k rs ≡ none
  unfolding find
  find_above k lo hi [] h b = refl
  find_above k lo hi (r ∷ rs) h b =
      ground (arith, find_above k r.id hi rs h.1, Ascending-le r.id hi rs h.1)

  pub find-append :
      (k : ℕ) (rs : List (Row A)) (r : Row A)
      → find k (rs ++ r ∷ [])
        ≡ (if is_some (find k rs) then find k rs else if r.id == k then some r.cols else none)
  unfolding find
  find-append k [] r = refl
  find-append k (x ∷ rs) r = ground (arith, find-append k rs r)

  -- A DELETE by key removes that row and no other.
  pub find-filter :
      (k : ℤ) (j : ℕ) (rs : List (Row A))
      → find j (filter (λ r. not (eq_ℤ (pos r.id) k)) rs)
        ≡ (if eq_ℤ (pos j) k then none else find j rs)
  unfolding find
  find-filter k j [] = ground arith
  find-filter k j (r ∷ rs) = ground (arith, find-filter k j rs)

  count_none :
      (k lo hi : ℕ) (rs : List (Row A))
      → Ascending lo hi rs
      → k ≤ lo
      → length (filter (λ r. eq_ℤ (pos r.id) (pos k)) rs) ≡ 0
  count_none k lo hi [] h b = refl
  count_none k lo hi (r ∷ rs) h b = ground (arith, count_none k r.id hi rs h.1)

  -- A key stands in one row at most.
  pub count_key :
      (k lo hi : ℕ) (rs : List (Row A))
      → Ascending lo hi rs
      → length (filter (λ r. eq_ℤ (pos r.id) (pos k)) rs) ≡ (if is_some (find k rs) then 1 else 0)
  unfolding find
  count_key k lo hi [] h = refl
  count_key k lo hi (r ∷ rs) h =
      ground (arith, count_key k r.id hi rs h.1, count_none k r.id hi rs h.1)

  pub find-update :
      (k : ℤ) (f : A → A) (j : ℕ) (rs : List (Row A))
      → find j (map (update_row (λ r. eq_ℤ (pos r.id) k) f) rs)
        ≡ (if eq_ℤ (pos j) k then Option.map f (find j rs) else find j rs)
  unfolding find update_row
  find-update k f j [] = ground arith
  find-update k f j (r ∷ rs) = ground (arith, find-update k f j rs)
