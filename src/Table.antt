-- ===== src/Table.antt =====
-- The SQL statements of sctp_probe/store.py on a table whose key is
-- `id INTEGER PRIMARY KEY AUTOINCREMENT`. `seq` is the largest key ever given out, which SQLite keeps
-- in `sqlite_sequence`; a key is never given out again, also after a DELETE.
pub mod Order
pub mod Paging
pub mod Find
use sctp_probe.Prelude.{
  ℕ, suc, ◌≤◌, ◌<◌, Bool, not, List, [], ◌∷◌, ◌++◌, length, filter, if◌then◌else◌, map,
}

pub record Row {ℓ} (A : Type ℓ) : Type ℓ where
  pub id : ℕ
  pub cols : A

pub record Table {ℓ} (A : Type ℓ) : Type ℓ where
  pub rows : List (Row A)
  pub seq : ℕ

module _ {ℓ} {A : Type ℓ} where
  abbrev pub no_rows : Table A
  no_rows = record { rows = []; seq = 0 }

  -- INSERT: the new row's key follows all others, so the rows stay in the order of their keys.
  unfoldable pub insert : A → Table A → Row A × Table A
  insert a t =
      let new : Row A = record { id = suc t.seq; cols = a } in
      (new, record { rows = t.rows ++ new ∷ []; seq = suc t.seq })

  -- SELECT … WHERE p ORDER BY id ASC
  unfoldable pub select : (Row A → Bool) → Table A → List (Row A)
  select p t = filter p t.rows

  -- DELETE … WHERE p, with `rowcount`
  unfoldable pub delete : (Row A → Bool) → Table A → ℕ × Table A
  delete p t = (length (filter p t.rows), record t { rows = filter (λ r. not (p r)) t.rows })

  unfoldable pub update_row : (Row A → Bool) → (A → A) → Row A → Row A
  update_row p f r = if p r then record r { cols = f r.cols } else r

  -- UPDATE … SET f WHERE p
  unfoldable pub update : (Row A → Bool) → (A → A) → Table A → Table A
  unfolding update_row
  update p f t = record t { rows = map (update_row p f) t.rows }

  -- The keys rise along the list, from above `lo` to at most `hi`.
  abbrev pub Ascending : ℕ → ℕ → List (Row A) → Type 0
  Ascending lo hi [] = lo ≤ hi
  Ascending lo hi (r ∷ rs) = (lo < r.id) × Ascending r.id hi rs

  abbrev pub IsTable : Table A → Type 0
  IsTable t = Ascending 0 t.seq t.rows
