-- ===== src/Table/Paging.antt =====
-- Rows behind a key: what a page leaves out is what stands behind its last key.
use sctp_probe.Prelude.{
  ℕ, zero, suc, ◌+◌, ◌≤◌, ◌≡◌, refl, Bool, ◌&&◌, List, [], ◌∷◌, arith, filter, take, drop, ltb,
}
use sctp_probe.Table.{Row, Ascending}
use sctp_probe.Table.Order.{Ascending-widen, Ascending-filter, Ascending-le}

module _ {ℓ} {A : Type ℓ} where
  -- The key of the last row, or `k`.
  unfoldable pub last_id : ℕ → List (Row A) → ℕ
  last_id k [] = k
  last_id k (r ∷ rs) = last_id r.id rs

  pub last_id-ge : (lo hi : ℕ) (rs : List (Row A)) → Ascending lo hi rs → lo ≤ last_id lo rs
  unfolding last_id
  last_id-ge lo hi [] k = omega arith
  last_id-ge lo hi (r ∷ rs) k = omega (arith, last_id-ge r.id hi rs k.1)

  pub last_id-take-ge :
      (n lo hi : ℕ) (rs : List (Row A)) → Ascending lo hi rs → lo ≤ last_id lo (take n rs)
  unfolding last_id
  last_id-take-ge zero lo hi rs k = omega arith
  last_id-take-ge (suc n) lo hi [] k = omega arith
  last_id-take-ge (suc n) lo hi (r ∷ rs) k = omega (arith, last_id-take-ge n r.id hi rs k.1)

  all_behind :
      (lo hi : ℕ) (rs : List (Row A)) → Ascending lo hi rs → filter (λ r. ltb lo r.id) rs ≡ rs
  all_behind lo hi [] k = refl
  all_behind lo hi (r ∷ rs) k =
      ground (arith, all_behind lo hi rs (Ascending-widen r.id lo hi rs (omega arith) k.1))

  pub behind_page :
      (n lo hi : ℕ) (rs : List (Row A))
      → Ascending lo hi rs
      → filter (λ r. ltb (last_id lo (take n rs)) r.id) rs ≡ drop n rs
  unfolding last_id
  behind_page zero lo hi rs k = all_behind lo hi rs k
  behind_page (suc n) lo hi [] k = refl
  behind_page (suc n) lo hi (r ∷ rs) k =
      ground (arith, behind_page n r.id hi rs k.1, last_id-take-ge n r.id hi rs k.1)

  pub filter_behind :
      (p : Row A → Bool) (j k : ℕ) (rs : List (Row A))
      → j ≤ k
      → filter (λ r. ltb k r.id) (filter (λ r. ltb j r.id && p r) rs)
        ≡ filter (λ r. ltb k r.id && p r) rs
  filter_behind p j k [] h = refl
  filter_behind p j k (r ∷ rs) h = ground (arith, filter_behind p j k rs h)

  Ascending-raise :
      (lo hi m : ℕ) (rs : List (Row A)) → Ascending lo hi rs → Ascending lo (m + hi) rs
  Ascending-raise lo hi m [] k = omega arith
  Ascending-raise lo hi m (r ∷ rs) k = (k.0, Ascending-raise r.id hi m rs k.1)

  pub Ascending-behind :
      (p : Row A → Bool) (k lo hi : ℕ) (rs : List (Row A))
      → Ascending lo hi rs
      → Ascending k (k + hi) (filter (λ r. ltb k r.id && p r) rs)
  Ascending-behind p k lo hi [] h = omega arith
  Ascending-behind p k lo hi (r ∷ rs) h = ground (
    arith,
    Ascending-behind p k r.id hi rs h.1,
    Ascending-raise r.id hi k _ (Ascending-filter (λ x. ltb k x.id && p x) r.id hi rs h.1),
  )

  pub none_behind :
      (p : Row A → Bool) (k lo hi : ℕ) (rs : List (Row A))
      → Ascending lo hi rs
      → hi ≤ k
      → filter (λ r. ltb k r.id && p r) rs ≡ []
  none_behind p k lo hi [] h b = refl
  none_behind p k lo hi (r ∷ rs) h b =
      ground (arith, none_behind p k r.id hi rs h.1, Ascending-le r.id hi rs h.1)

  pub Ascending-take :
      (n lo hi : ℕ) (rs : List (Row A)) → Ascending lo hi rs → Ascending lo hi (take n rs)
  Ascending-take zero lo hi rs h = Ascending-le lo hi rs h
  Ascending-take (suc n) lo hi [] h = h
  Ascending-take (suc n) lo hi (r ∷ rs) h = (h.0, Ascending-take n r.id hi rs h.1)
