-- ===== src/Store/Connections/Atomic.antt =====
-- A method that raises takes effect as a whole or not at all.
use sctp_probe.Prelude.{
  ℕ, zero, suc, ◌≡◌, ◌⊎◌, refl, Bool, true, false, List, [], ◌∷◌, ◌++◌, Option, none, some, All,
  arith, ap, ◌∙◌, if◌then◌else◌, inl, inr, ◌||◌,
}
use sctp_probe.Store
use sctp_probe.Store.History.{
  Call, init, saves_message, saves_rule, deletes_rule, deletes_rules, deletes_messages, resets,
  fires, step,
}
use sctp_probe.Store.Connections.{
  Statement, reads, commits, apply, before_commit, after_commit, statements_of, Connection,
  run_statement, run_statements, Database, Failure, connect, pragma, statement, with_conn,
  connect_file, failing_statement, open_conn, maybe_close, leave_open, has_finally, call_sync,
}

-- It is no commit.
abbrev IsInside : Statement → Type 0
IsInside commits = ⊥
IsInside _ = Unit

abbrev IsRead : Statement → Type 0
IsRead reads = Unit
IsRead _ = ⊥

apply_all : List Statement → Store.Store → Store.Store
apply_all [] s = s
apply_all (st ∷ sts) s = apply_all sts (apply st s)

-- Reading leaves everything as it is, whether or not it raises.
only_reads :
    (fails : Option ℕ) (sts : List Statement) (conn : Connection)
    → All IsRead sts
    → (run_statements fails sts conn).1 ≡ conn
unfolding run_statements run_statement apply
only_reads fails [] conn h = refl
only_reads none (reads ∷ sts) conn h = only_reads none sts conn h.1
only_reads (some zero) (st ∷ sts) conn h = refl
only_reads (some (suc n)) (reads ∷ sts) conn h = only_reads (some n) sts conn h.1
only_reads none (_ ∷ sts) conn h = absurd h.0
only_reads (some (suc n)) (_ ∷ sts) conn h = absurd h.0

-- The statements up to a commit, the commit and some reads: the commit was reached, or nothing was
-- committed and one has raised.
committed_cases :
    (fails : Option ℕ) (sts rs : List Statement) (conn : Connection)
    → All IsInside sts
    → All IsRead rs
    → let (ok, conn') = run_statements fails (sts ++ commits ∷ rs) conn in
      let after = apply_all sts conn.view in
      (conn' ≡ record { view = after; saved = after }) ⊎ ((ok ≡ false) × (conn'.saved ≡ conn.saved))
unfolding run_statements apply_all run_statement
committed_cases none [] rs conn h k = inl (only_reads none rs _ k)
committed_cases (some zero) [] rs conn h k = inr (refl, refl)
committed_cases (some (suc n)) [] rs conn h k = inl (only_reads (some n) rs _ k)
committed_cases none (commits ∷ sts) rs conn h k = absurd h.0
committed_cases none (st ∷ sts) rs conn h k =
    committed_cases none sts rs (record conn { view = apply st conn.view }) h.1 k
committed_cases (some zero) (st ∷ sts) rs conn h k = inr (refl, refl)
committed_cases (some (suc n)) (commits ∷ sts) rs conn h k = absurd h.0
committed_cases (some (suc n)) (st ∷ sts) rs conn h k =
    committed_cases (some n) sts rs (record conn { view = apply st conn.view }) h.1 k

-- The statements of a method do what the method does in Store.
apply_all-before_commit : (c : Call) (s : Store.Store) → apply_all (before_commit c) s ≡ step s c
unfolding apply_all apply step
apply_all-before_commit (init uuid) s = refl
apply_all-before_commit (saves_message now m) s = refl
apply_all-before_commit (saves_rule r) s = refl
apply_all-before_commit (deletes_rule k) s = refl
apply_all-before_commit deletes_rules s = refl
apply_all-before_commit deletes_messages s = refl
apply_all-before_commit (resets new_id) s = refl
apply_all-before_commit (fires k) s = refl

inside : (c : Call) → All IsInside (before_commit c) × All IsRead (after_commit c)
inside (init uuid) = ((tt, (tt, (tt, (tt, tt)))), tt)
inside (saves_message now m) = ((tt, tt), (tt, tt))
inside (saves_rule r) = ((tt, tt), (tt, tt))
inside (deletes_rule k) = ((tt, tt), tt)
inside deletes_rules = ((tt, tt), tt)
inside deletes_messages = ((tt, tt), tt)
inside (resets new_id) = ((tt, (tt, (tt, (tt, tt)))), tt)
inside (fires k) = ((tt, tt), tt)

pub method_cases :
    (fails : Option ℕ) (c : Call) (conn : Connection)
    → let (ok, conn') = run_statements fails (statements_of c) conn in
      (conn' ≡ record { view = step conn.view c; saved = step conn.view c })
      ⊎ ((ok ≡ false) × (conn'.saved ≡ conn.saved))
method_cases fails c conn =
    let (h, k) = inside c in
    rw apply_all-before_commit at
      (committed_cases fails (before_commit c) (after_commit c) conn h k)

-- A database file, of which no connection sees what is not committed.
pub record IsFile (db : Database) : Type 0 where
  pub on_disk : db.in_memory ≡ false
  pub rolled_back : db.view ≡ db.saved

-- The connection is closed in any case.
abbrev pub closes : Option Failure → Call → Bool
closes (some pragma) c = false
closes _ c = has_finally c

-- A call on a database file commits all that the method does, or it raises and commits nothing. A
-- method with a `finally` block leaves no connection behind either way, unless the PRAGMA raises.
pub record IsAtomic (fails : Option Failure) (c : Call) (db : Database) (r : Bool × Database)
    : Type 0 where
  pub all_or_nothing : (r.1.saved ≡ step db.saved c) ⊎ ((r.0 ≡ false) × (r.1.saved ≡ db.saved))
  pub closed : closes fails c ≡ true → r.1.opened ≡ db.opened
  pub is_file : IsFile r.1

-- A new connection to a database file, and the database with it.
abbrev on_new : Database → Option Connection × Database
on_new db =
    (some (record { view = db.saved; saved = db.saved }), record db { opened = suc db.opened })

-- What is left of a connection on a database file.
record IsLeft (finished : Bool) (conn : Connection) (db db' : Database) : Type 0 where
  keeps : db'.saved ≡ conn.saved
  closes : finished ≡ true → db'.opened ≡ db.opened
  is_file : IsFile db'

ended-IsLeft :
    (finished : Bool) (conn : Connection) (db : Database)
    → IsFile db
    → let db' : Database = record db { opened = suc db.opened } in
      IsLeft finished conn db (if finished then maybe_close conn db' else leave_open conn db')
unfolding maybe_close leave_open
ended-IsLeft true conn db v = record {
  keeps = rw v.on_disk refl;
  closes = λ h. rw v.on_disk refl;
  is_file = record { on_disk = rw v.on_disk refl; rolled_back = rw v.on_disk refl };
}
ended-IsLeft false conn db v = record {
  keeps = rw v.on_disk refl;
  closes = λ h. absurd (cc h);
  is_file = record { on_disk = rw v.on_disk refl; rolled_back = rw v.on_disk refl };
}

pub true-ne-false : true ≡ false → ⊥
true-ne-false e = cc e

pub or_true : (b : Bool) → (b || true) ≡ true
or_true b = ground arith

has_closed : (a b : Bool) → a ≡ true → (a || b) ≡ true
has_closed a b h = ground arith

closes-has_finally :
    (fails : Option Failure) (c : Call) → closes fails c ≡ true → has_finally c ≡ true
closes-has_finally none c h = h
closes-has_finally (some connect) c h = h
closes-has_finally (some pragma) c h = absurd (cc h)
closes-has_finally (some (statement n)) c h = h

with_conn-IsAtomic :
    (fails : Option Failure) (n : Option ℕ) (c : Call) (db : Database)
    → IsFile db
    → IsAtomic fails c db (with_conn n c (on_new db))
unfolding with_conn
with_conn-IsAtomic fails n c db v =
    let conn : Connection = record { view = db.saved; saved = db.saved } in
    let (ok, conn') = run_statements n (statements_of c) conn in
    let ended = ended-IsLeft (has_finally c || ok) conn' db v in
    record {
      all_or_nothing = elim (method_cases n c conn) [
        | inl e ↦ inl (ended.keeps ∙ ap (λ (x : Connection). x.saved) e)
        | inr (raised, e) ↦ inr (raised, ended.keeps ∙ e)
      ];
      closed = λ h. ended.closes (has_closed (has_finally c) ok (closes-has_finally fails c h));
      is_file = ended.is_file;
    }

if_false {ℓ} : {A : Type ℓ} (b : Bool) (x y : A) → b ≡ false → (if b then x else y) ≡ y
if_false true x y e = absurd (cc e)
if_false false x y e = refl

if_true {ℓ} : {A : Type ℓ} (b : Bool) (x y : A) → b ≡ true → (if b then x else y) ≡ x
if_true true x y e = refl
if_true false x y e = absurd (cc e)

pub open_conn-file :
    (fails : Option Failure) (db : Database)
    → db.in_memory ≡ false
    → open_conn fails db ≡ connect_file fails db
unfolding open_conn
open_conn-file fails db e = if_false db.in_memory _ _ e

pub open_conn-memory :
    (fails : Option Failure) (db : Database)
    → db.in_memory ≡ true
    → open_conn fails db ≡ (some (record { view = db.view; saved = db.saved }), db)
unfolding open_conn
open_conn-memory fails db e = if_true db.in_memory _ _ e

connected-IsAtomic :
    (fails : Option Failure) (c : Call) (db : Database)
    → IsFile db
    → IsAtomic fails c db (with_conn (failing_statement fails) c (connect_file fails db))
unfolding connect_file failing_statement
connected-IsAtomic none c db v = with_conn-IsAtomic none none c db v
connected-IsAtomic (some connect) c db v =
    unfold with_conn in
    record { all_or_nothing = inr (refl, refl); closed = λ h. refl; is_file = v }
connected-IsAtomic (some pragma) c db v =
    unfold with_conn in
    record {
      all_or_nothing = inr (refl, refl);
      closed = λ h. absurd (cc h);
      is_file = record { on_disk = v.on_disk; rolled_back = v.rolled_back };
    }
connected-IsAtomic (some (statement n)) c db v =
    with_conn-IsAtomic (some (statement n)) (some n) c db v

pub call_sync-IsAtomic :
    (fails : Option Failure) (c : Call) (db : Database)
    → IsFile db
    → IsAtomic fails c db (call_sync fails c db)
unfolding call_sync
call_sync-IsAtomic fails c db v =
    rw (open_conn-file fails db v.on_disk) (connected-IsAtomic fails c db v)
