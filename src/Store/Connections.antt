-- ===== src/Store/Connections.antt =====
-- The `_…_sync` methods of sctp_probe/store.py as the statements that they execute on a connection of
-- their own, or on the shared one of a database in memory, and what is left when one of them raises.
-- (Store has each method as one function.) A connection that is closed before it has committed rolls
-- back; the shared one is not closed. A table that does not exist is not told from an empty one: CREATE
-- TABLE, which commits by itself, changes nothing here, and a statement on a table that is not there is
-- one that raises.
pub mod Atomic
pub mod Committed
use sctp_probe.Prelude.{
  ℕ, zero, suc, Bool, true, false, ◌||◌, List, [], ◌∷◌, ◌++◌, Option, none, some, Text, ℤ, text_eq,
  codes, if◌then◌else◌, or_default,
}
use sctp_probe.Table.{insert, delete, update}
use sctp_probe.Store
use sctp_probe.Store.{has_id, count_firing, message_columns, rule_columns}
use sctp_probe.Store.History.{
  Call, init, saves_message, saves_rule, deletes_rule, deletes_rules, deletes_messages, resets,
  fires,
}

-- A statement, `reads` for one that changes nothing and `creates` for CREATE TABLE IF NOT EXISTS, or
-- `conn.commit()`.
pub data Statement : Type 0 where
  creates : Statement
  ignores_or_inserts_session : Text → Statement
  replaces_session : Text → Statement
  inserts_message : Text → Store.NewMessage → Statement
  inserts_rule : Store.NewRule → Statement
  deletes_rules_by_id : ℤ → Statement
  deletes_from_rules : Statement
  deletes_from_messages : Statement
  updates_fired : ℤ → Statement
  reads : Statement
  commits : Statement

-- What the statement does to what its connection sees.
unfoldable pub apply : Statement → Store.Store → Store.Store
apply creates s = s
apply (ignores_or_inserts_session uuid) s = record s { session = some (or_default s.session uuid) }
apply (replaces_session new_id) s = record s { session = some new_id }
apply (inserts_message now m) s = record s {
  messages = (insert (message_columns now m) s.messages).1;
}
apply (inserts_rule r) s = record s { rules = (insert (rule_columns r) s.rules).1 }
apply (deletes_rules_by_id rule_id) s = record s { rules = (delete (has_id rule_id) s.rules).1 }
apply deletes_from_rules s = record s { rules = (delete (λ _. true) s.rules).1 }
apply deletes_from_messages s = record s { messages = (delete (λ _. true) s.messages).1 }
apply (updates_fired rule_id) s = record s { rules = update (has_id rule_id) count_firing s.rules }
apply reads s = s
apply commits s = s

-- The statements of a method up to its commit.
abbrev pub before_commit : Call → List Statement
before_commit (init uuid) = creates ∷ creates ∷ creates ∷ ignores_or_inserts_session uuid ∷ []
before_commit (saves_message now m) = inserts_message now m ∷ []
before_commit (saves_rule r) = inserts_rule r ∷ []
before_commit (deletes_rule rule_id) = deletes_rules_by_id rule_id ∷ []
before_commit deletes_rules = deletes_from_rules ∷ []
before_commit deletes_messages = deletes_from_messages ∷ []
before_commit (resets new_id) = replaces_session new_id ∷ reads ∷ reads ∷ deletes_from_rules ∷ []
before_commit (fires rule_id) = updates_fired rule_id ∷ []

-- A row that was inserted is read back.
abbrev pub after_commit : Call → List Statement
after_commit (saves_message now m) = reads ∷ []
after_commit (saves_rule r) = reads ∷ []
after_commit _ = []

abbrev pub statements_of : Call → List Statement
statements_of c = before_commit c ++ commits ∷ after_commit c

-- What a connection sees, and what is committed.
pub record Connection : Type 0 where
  pub view : Store.Store
  pub saved : Store.Store

unfoldable pub run_statement : Statement → Connection → Connection
run_statement commits conn = record conn { saved = conn.view }
run_statement st conn = record conn { view = apply st conn.view }

-- The number says which statement raises, if one does: then the ones behind it are not executed. The
-- result says whether none raised.
unfoldable pub run_statements : Option ℕ → List Statement → Connection → Bool × Connection
run_statements fails [] conn = (true, conn)
run_statements none (st ∷ sts) conn = run_statements none sts (run_statement st conn)
run_statements (some zero) (st ∷ sts) conn = (false, conn)
run_statements (some (suc n)) (st ∷ sts) conn = run_statements (some n) sts (run_statement st conn)

-- `saved` is what is committed, `view` what the shared connection sees; `opened` counts the other
-- connections that are not closed.
pub record Database : Type 0 where
  pub in_memory : Bool
  pub saved : Store.Store
  pub view : Store.Store
  pub opened : ℕ

-- Store.__init__
abbrev pub new_database : Text → Database
new_database db_path = record {
  in_memory = text_eq db_path (codes ":memory:");
  saved = Store.no_tables;
  view = Store.no_tables;
  opened = 0;
}

-- What raises in a method: sqlite3.connect, the PRAGMA behind it, or a statement of the method, by its
-- number.
pub data Failure : Type 0 where
  connect : Failure
  pragma : Failure
  statement : ℕ → Failure

-- A database in memory is neither connected to again nor sent a PRAGMA. A connection on which the PRAGMA
-- raises is not closed.
pub connect_file : Option Failure → Database → Option Connection × Database
connect_file (some connect) db = (none, db)
connect_file (some pragma) db = (none, record db { opened = suc db.opened })
connect_file _ db =
    (some (record { view = db.saved; saved = db.saved }), record db { opened = suc db.opened })

-- _connect: without a connection it has raised.
unfoldable pub open_conn : Option Failure → Database → Option Connection × Database
unfolding connect_file
open_conn fails db =
    if db.in_memory
    then (some (record { view = db.view; saved = db.saved }), db)
    else connect_file fails db

pred : ℕ → ℕ
pred zero = zero
pred (suc n) = n

-- _maybe_close, and what becomes of what is not committed.
unfoldable pub maybe_close : Connection → Database → Database
unfolding pred
maybe_close conn db =
    if db.in_memory
    then record db { saved = conn.saved; view = conn.view }
    else record db { saved = conn.saved; view = conn.saved; opened = pred db.opened }

-- `_init_db_sync` has no `finally`: after an exception its connection is not closed, and what was not
-- committed is lost with it.
unfoldable pub leave_open : Connection → Database → Database
leave_open conn db =
    if db.in_memory
    then record db { saved = conn.saved; view = conn.view }
    else record db { saved = conn.saved; view = conn.saved }

abbrev pub has_finally : Call → Bool
has_finally (init uuid) = false
has_finally _ = true

pub failing_statement : Option Failure → Option ℕ
failing_statement (some (statement n)) = some n
failing_statement _ = none

-- The body of a method behind its call of `_connect`, which stands outside of the `try` block.
pub with_conn : Option ℕ → Call → Option Connection × Database → Bool × Database
with_conn fails c (none, db) = (false, db)
with_conn fails c (some conn, db) =
    let (ok, conn') = run_statements fails (statements_of c) conn in
    (ok, if has_finally c || ok then maybe_close conn' db else leave_open conn' db)

-- A method, with what raises if anything does.
unfoldable pub call_sync : Option Failure → Call → Database → Bool × Database
unfolding with_conn failing_statement
call_sync fails c db = with_conn (failing_statement fails) c (open_conn fails db)

unfoldable pub call_all : List (Option Failure × Call) → Database → Database
call_all [] db = db
call_all ((fails, c) ∷ cs) db = call_all cs (call_sync fails c db).1
