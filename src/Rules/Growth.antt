-- ===== src/Rules/Growth.antt =====
-- What evaluating a message adds to the log.
use sctp_probe.Prelude.{
  ℕ, ◌≤◌, ◌≡◌, List, [], ◌∷◌, ◌++◌, Option, Text, codes, sym, All, arith, subst, length, inl, inr,
}
use mathlib.Core.List.{append-nil}
use sctp_probe.Table.{Row, Table}
use sctp_probe.Store.{Store, Message, Rule, increment_fired}
use sctp_probe.Rules.{Env, World, execute, evaluate, log_reply}
use sctp_probe.Rules.Outcomes.{execute-Outcome}
use sctp_probe.Rules.Effects.{log_reply-IsLogged}
use sctp_probe.Rules.Matching.{evaluate-IsFirst}

-- Rows were added behind those of the log, one at most, and it is outbound.
pub record Grows (old new : Table Message) : Type 0 where
  pub replies : List (Row Message)
  pub at_end : new.rows ≡ old.rows ++ replies
  pub at_most_one : length replies ≤ 1
  pub are_outbound : All (λ r. r.cols.direction ≡ codes "outbound") replies

Grows-refl : (t : Table Message) → Grows t t
Grows-refl t = record {
  replies = [];
  at_end = sym (append-nil t.rows);
  at_most_one = omega arith;
  are_outbound = tt;
}

module _ (env : Env) (rule : Row Rule) (msg : Row Message) where
  log_reply-Grows :
      (raw : List ℕ) (w : World)
      → Grows w.store.messages (log_reply env rule msg raw w).store.messages
  log_reply-Grows raw w =
      let logged = log_reply-IsLogged env rule msg raw w in
      record {
        replies = logged.out ∷ [];
        at_end = logged.at_end;
        at_most_one = omega arith;
        are_outbound = (logged.is_outbound, tt);
      }

  execute-Grows :
      (source : Option (Option Text)) (w : World)
      → Grows w.store.messages (execute env rule msg source w).store.messages
  unfolding increment_fired
  execute-Grows source w = elim (execute-Outcome env rule msg source w) [
    | inl e ↦ rw e (Grows-refl w.store.messages)
    | inr (raw, sent, same, e) ↦ rw e (
        subst (λ (t : Store). Grows t.messages (log_reply env rule msg raw sent).store.messages)
          same (log_reply-Grows raw sent))
  ]

pub evaluate-Grows :
    (env : Env) (msg : Row Message) (source : Option (Option Text)) (w : World)
    → Grows w.store.messages (evaluate env msg source w).store.messages
evaluate-Grows env msg source w = elim (evaluate-IsFirst env msg source w) [
  | inl (rule, f, e) ↦ rw e (execute-Grows env rule msg source w)
  | inr (h, e) ↦ rw e (Grows-refl w.store.messages)
]
