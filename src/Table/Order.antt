-- ===== src/Table/Order.antt =====
-- The order of keys under the statements of Table.antt.
use sctp_probe.Prelude.{ℕ, suc, ◌≤◌, ◌<◌, ◌≡◌, Bool, List, [], ◌∷◌, ◌++◌, arith, filter, map}
use sctp_probe.Table.{Row, Table, insert, delete, update, update_row, Ascending, IsTable}

module _ {ℓ} {A : Type ℓ} where
  pub Ascending-widen :
      (lo lo' hi : ℕ) (rs : List (Row A)) → lo' ≤ lo → Ascending lo hi rs → Ascending lo' hi rs
  Ascending-widen lo lo' hi [] h k = omega arith
  Ascending-widen lo lo' hi (r ∷ rs) h k = (omega arith, k.1)

  pub Ascending-snoc :
      (lo hi : ℕ) (rs : List (Row A)) (r : Row A)
      → Ascending lo hi rs
      → hi < r.id
      → Ascending lo r.id (rs ++ r ∷ [])
  Ascending-snoc lo hi [] r k h = (omega arith, omega arith)
  Ascending-snoc lo hi (x ∷ rs) r k h = (k.0, Ascending-snoc x.id hi rs r k.1 h)

  pub Ascending-filter :
      (p : Row A → Bool) (lo hi : ℕ) (rs : List (Row A))
      → Ascending lo hi rs
      → Ascending lo hi (filter p rs)
  Ascending-filter p lo hi [] k = k
  Ascending-filter p lo hi (r ∷ rs) k =
      ground (arith, Ascending-filter p r.id hi rs k.1, Ascending-widen r.id lo hi (filter p rs))

  pub Ascending-map :
      (f : Row A → Row A) (same : (r : Row A) → (f r).id ≡ r.id) (lo hi : ℕ) (rs : List (Row A))
      → Ascending lo hi rs
      → Ascending lo hi (map f rs)
  Ascending-map f same lo hi [] k = k
  Ascending-map f same lo hi (r ∷ rs) k =
      ground (arith, same r, Ascending-map f same r.id hi rs k.1)

  pub Ascending-le : (lo hi : ℕ) (rs : List (Row A)) → Ascending lo hi rs → lo ≤ hi
  Ascending-le lo hi [] h = h
  Ascending-le lo hi (r ∷ rs) h = let rest = Ascending-le r.id hi rs h.1 in omega arith

  pub insert-IsTable : (a : A) (t : Table A) → IsTable t → IsTable (insert a t).1
  unfolding insert
  insert-IsTable a t k =
      Ascending-snoc 0 t.seq t.rows (record { id = suc t.seq; cols = a }) k (omega arith)

  pub delete-IsTable : (p : Row A → Bool) (t : Table A) → IsTable t → IsTable (delete p t).1
  unfolding delete
  delete-IsTable p t k = Ascending-filter _ 0 t.seq t.rows k

  id-update_row : (p : Row A → Bool) (f : A → A) (r : Row A) → (update_row p f r).id ≡ r.id
  unfolding update_row
  id-update_row p f r = ground arith

  pub update-IsTable :
      (p : Row A → Bool) (f : A → A) (t : Table A) → IsTable t → IsTable (update p f t)
  unfolding update
  update-IsTable p f t k = Ascending-map (update_row p f) (id-update_row p f) 0 t.seq t.rows k
