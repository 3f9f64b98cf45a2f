-- ===== src/Store/History.antt =====
-- Any sequence of calls of the store: which keys it holds, and what becomes of the message log.
use sctp_probe.Prelude.{◌≤◌, ◌<◌, ◌≡◌, refl, List, [], ◌∷◌, ◌++◌, Text, ℤ, arith, sym, ap, ◌∙◌}
use mathlib.Core.List.{append-nil, append_assoc}
use sctp_probe.Table.{Row, IsTable, insert, delete, update}
use sctp_probe.Table.Order.{insert-IsTable, delete-IsTable, update-IsTable}
use sctp_probe.Store

-- A call with its arguments, the fresh UUID and the time among them.
pub data Call : Type 0 where
  init : Text → Call
  saves_message : Text → Store.NewMessage → Call
  saves_rule : Store.NewRule → Call
  deletes_rule : ℤ → Call
  deletes_rules : Call
  deletes_messages : Call
  resets : Text → Call
  fires : ℤ → Call

unfoldable pub step : Store.Store → Call → Store.Store
unfolding Store.init_db Store.save_message Store.save_rule Store.delete_rule Store.delete_all_rules
    Store.delete_all_messages Store.reset_session Store.increment_fired
step s (init uuid) = Store.init_db uuid s
step s (saves_message now m) = (Store.save_message now m s).1
step s (saves_rule r) = (Store.save_rule r s).1
step s (deletes_rule k) = (Store.delete_rule k s).1
step s deletes_rules = (Store.delete_all_rules s).1
step s deletes_messages = (Store.delete_all_messages s).1
step s (resets new_id) = (Store.reset_session new_id s).1
step s (fires k) = Store.increment_fired k s

unfoldable pub run : Store.Store → List Call → Store.Store
run s [] = s
run s (c ∷ cs) = run (step s c) cs

pub record IsStore (s : Store.Store) : Type 0 where
  pub messages_IsTable : IsTable s.messages
  pub rules_IsTable : IsTable s.rules

pub step-IsStore : (s : Store.Store) (c : Call) → IsStore s → IsStore (step s c)
unfolding step
step-IsStore s (init uuid) v = record {
  messages_IsTable = v.messages_IsTable;
  rules_IsTable = v.rules_IsTable;
}
step-IsStore s (saves_message now m) v = record {
  messages_IsTable = insert-IsTable _ s.messages v.messages_IsTable;
  rules_IsTable = v.rules_IsTable;
}
step-IsStore s (saves_rule r) v = record {
  messages_IsTable = v.messages_IsTable;
  rules_IsTable = insert-IsTable _ s.rules v.rules_IsTable;
}
step-IsStore s (deletes_rule k) v = record {
  messages_IsTable = v.messages_IsTable;
  rules_IsTable = delete-IsTable _ s.rules v.rules_IsTable;
}
step-IsStore s deletes_rules v = record {
  messages_IsTable = v.messages_IsTable;
  rules_IsTable = delete-IsTable _ s.rules v.rules_IsTable;
}
step-IsStore s deletes_messages v = record {
  messages_IsTable = delete-IsTable _ s.messages v.messages_IsTable;
  rules_IsTable = v.rules_IsTable;
}
step-IsStore s (resets new_id) v = record {
  messages_IsTable = v.messages_IsTable;
  rules_IsTable = delete-IsTable _ s.rules v.rules_IsTable;
}
step-IsStore s (fires k) v = record {
  messages_IsTable = v.messages_IsTable;
  rules_IsTable = update-IsTable _ _ s.rules v.rules_IsTable;
}

pub run_after-IsStore : (s : Store.Store) (cs : List Call) → IsStore s → IsStore (run s cs)
unfolding run
run_after-IsStore s [] v = v
run_after-IsStore s (c ∷ cs) v = run_after-IsStore (step s c) cs (step-IsStore s c v)

-- Whatever is called on a new database, and in whatever order, the keys of both tables rise along
-- the rows, so no two rows share one, and none passes the table's `seq`.
pub run-IsStore : (cs : List Call) → IsStore (run Store.no_tables cs)
run-IsStore cs = run_after-IsStore Store.no_tables cs (omega arith)

pub seq-step :
    (s : Store.Store) (c : Call)
    → (s.messages.seq ≤ (step s c).messages.seq) × (s.rules.seq ≤ (step s c).rules.seq)
unfolding step insert delete update
seq-step s (init uuid) = omega arith
seq-step s _ = omega arith

seq-run :
    (s : Store.Store) (cs : List Call)
    → (s.messages.seq ≤ (run s cs).messages.seq) × (s.rules.seq ≤ (run s cs).rules.seq)
unfolding run
seq-run s [] = omega arith
seq-run s (c ∷ cs) = let rest = seq-run (step s c) cs in omega (arith, seq-step s c)

-- The key of a saved message is larger than that of every message saved before it, whatever calls
-- stand between the two, deletions and session resets included; and so for rules.
pub ids_grow :
    (s : Store.Store) (cs : List Call) (now later : Text) (m m' : Store.NewMessage)
    (r r' : Store.NewRule)
    → ((Store.save_message now m s).0.id
        < (Store.save_message later m' (run (Store.save_message now m s).1 cs)).0.id)
      × ((Store.save_rule r s).0.id < (Store.save_rule r' (run (Store.save_rule r s).1 cs)).0.id)
unfolding insert Store.save_message Store.save_rule
ids_grow s cs now later m m' r r' =
    omega (arith, seq-run (Store.save_message now m s).1 cs, seq-run (Store.save_rule r s).1 cs)

-- The call is not DELETE /api/messages.
abbrev pub KeepsLog : List Call → Type 0
KeepsLog [] = Unit
KeepsLog (deletes_messages ∷ cs) = ⊥
KeepsLog (_ ∷ cs) = KeepsLog cs

abbrev pub IsExtension : List (Row Store.Message) → List (Row Store.Message) → Type 0
IsExtension xs ys = (more : List (Row Store.Message)) × (ys ≡ xs ++ more)

IsExtension-refl : (xs : List (Row Store.Message)) → IsExtension xs xs
IsExtension-refl xs = ([], sym (append-nil xs))

step-IsExtension :
    (s : Store.Store) (c : Call)
    → KeepsLog (c ∷ [])
    → IsExtension s.messages.rows (step s c).messages.rows
unfolding step insert
step-IsExtension s deletes_messages h = absurd h
step-IsExtension s (saves_message now m) h = ((Store.save_message now m s).0 ∷ [], refl)
step-IsExtension s _ h = IsExtension-refl s.messages.rows

KeepsLog-head : (c : Call) (cs : List Call) → KeepsLog (c ∷ cs) → KeepsLog (c ∷ []) × KeepsLog cs
KeepsLog-head deletes_messages cs h = absurd h
KeepsLog-head _ cs h = (tt, h)

-- The log is append-only. As long as DELETE /api/messages is not called, the rows of `messages` stay
-- as they were, in their places, and calls only add rows behind them. In particular resetting the
-- session deletes no message.
pub log_append_only :
    (s : Store.Store) (cs : List Call)
    → KeepsLog cs
    → IsExtension s.messages.rows (run s cs).messages.rows
unfolding run
log_append_only s [] h = IsExtension-refl s.messages.rows
log_append_only s (c ∷ cs) h =
    let (first, rest) = KeepsLog-head c cs h in
    let (xs, e) = step-IsExtension s c first in
    let (ys, d) = log_append_only (step s c) cs rest in
    (xs ++ ys, d ∙ ap (λ rows. rows ++ ys) e ∙ append_assoc s.messages.rows xs ys)
