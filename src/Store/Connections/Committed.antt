-- ===== src/Store/Connections/Committed.antt =====
-- What any calls of methods leave in the database, when any of their statements may raise.
use sctp_probe.Prelude.{
  ℕ, ◌≡◌, refl, true, false, List, [], ◌∷◌, Option, none, some, All, ap, sym, ◌∙◌, suc, inl, inr,
  Bool-cases,
}
use sctp_probe.Store
use sctp_probe.Store.History.{Call, step, run}
use sctp_probe.Store.Connections.{
  Statement, statements_of, Connection, run_statement, run_statements, Database, maybe_close,
  has_finally, connect_file, failing_statement, with_conn, Failure, call_sync,
}
use sctp_probe.Store.Connections.Atomic.{
  closes, open_conn-file, open_conn-memory, method_cases, true-ne-false, or_true,
}

-- Some of the calls, in their order.
pub data ArePart : List Call → List (Option Failure × Call) → Type 0 where
  nil : ArePart [] []
  took_effect :
      {made : List Call} {cs : List (Option Failure × Call)} (fails : Option Failure) (c : Call)
      → ArePart made cs
      → ArePart (c ∷ made) ((fails, c) ∷ cs)
  raised :
      {made : List Call} {cs : List (Option Failure × Call)} (f : Failure) (c : Call)
      → ArePart made cs
      → ArePart made ((some f, c) ∷ cs)

none_raises : (sts : List Statement) (conn : Connection) → (run_statements none sts conn).0 ≡ true
unfolding run_statements
none_raises [] conn = refl
none_raises (st ∷ sts) conn = none_raises sts (run_statement st conn)

-- What the calls leave on a database file: `made` took effect, and the others raised.
pub record IsHistory (cs : List (Option Failure × Call)) (db db' : Database) : Type 0 where
  pub made : List Call
  pub are_part : ArePart made cs
  pub runs : db'.saved ≡ run db.saved made
  pub closed : All (λ x. closes x.0 x.1 ≡ true) cs → db'.opened ≡ db.opened

closing :
    (s : Store.Store) (db : Database) (n : ℕ)
    → db.in_memory ≡ false
    → maybe_close (record { view = s; saved = s }) (record db { opened = suc n })
      ≡ record db { saved = s; view = s; opened = n }
unfolding maybe_close
closing s db n e = rw e refl

closing_shared :
    (s : Store.Store) (db : Database)
    → db.in_memory ≡ true
    → maybe_close (record { view = s; saved = s }) db ≡ record db { saved = s; view = s }
unfolding maybe_close
closing_shared s db e = rw e refl

-- A method without exception, on its connection.
with_conn-none :
    (c : Call) (conn : Connection) (db : Database)
    → let after = step conn.view c in
      with_conn none c (some conn, db)
      ≡ (true, maybe_close (record { view = after; saved = after }) db)
unfolding with_conn
with_conn-none c conn db =
    let works = none_raises (statements_of c) conn in
    elim (method_cases none c conn) [
      | inl e ↦ rw (works, or_true (has_finally c), e) refl
      | inr (failed, e) ↦ absurd (true-ne-false (sym works ∙ failed))
    ]

-- Where no statement raises, a method does what it does in Store, on a file as in memory.
pub call_sync-none :
    (c : Call) (db : Database)
    → db.view ≡ db.saved
    → call_sync none c db ≡ (true, record db { saved = step db.saved c; view = step db.saved c })
unfolding call_sync connect_file failing_statement
call_sync-none c db clean = elim (Bool-cases db.in_memory) [
  | inl e ↦
      ap (with_conn none c) (open_conn-memory none db e)
      ∙ with_conn-none c (record { view = db.view; saved = db.saved }) db
      ∙ ap (λ d. (true, d)) (closing_shared (step db.view c) db e)
      ∙ ap (λ s. (true, record db { saved = step s c; view = step s c })) clean
  | inr e ↦
      ap (with_conn none c) (open_conn-file none db e)
      ∙ with_conn-none c (record { view = db.saved; saved = db.saved })
          (record db { opened = suc db.opened })
      ∙ ap (λ d. (true, d)) (closing (step db.saved c) db db.opened e)
]
