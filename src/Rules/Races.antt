-- ===== src/Rules/Races.antt =====
-- `evaluate` as tasks: between the match and the count of the firing a task sleeps for the rule's
-- delay, and other messages are matched against the old count.
pub mod Bound
use sctp_probe.Prelude.{
  ℕ, suc, ◌≡◌, refl, List, [], ◌∷◌, ◌++◌, none, some, arith, ℤ, pos, ap, ◌∙◌, ◌<ℤ◌,
}
use sctp_probe.Table.{Row, Table}
use sctp_probe.Table.Find.{find}
use sctp_probe.Store.{Message, Rule, get_rules, count_firing}
use sctp_probe.Store.RuleTable.{find_rule, increment_fired_lem}
use sctp_probe.Rules.{Env, World, execute, first_match}
use sctp_probe.Rules.Effects.{rules-execute}
use sctp_probe.Rules.Edits.{IsEdit}
use sctp_probe.Store.History
use sctp_probe.Store.History.{Call}

-- A task that sleeps: the rule as it was read, and its message.
pub record Task : Type 0 where
  pub rule : Row Rule
  pub msg : Row Message

pub record Engine : Type 0 where
  pub world : World
  pub tasks : List Task

-- A message is matched and its task goes to sleep, a sleeping task wakes up and runs to its end, or the
-- store is called from elsewhere: rules are made and deleted, messages are saved, the session is reset.
pub data Step (env : Env) (e e' : Engine) : Type 0 where
  arrives :
      (rule : Row Rule) (msg : Row Message)
      → first_match msg.cols (get_rules e.world.store) ≡ some rule
      → e' ≡ record e { tasks = e.tasks ++ record { rule = rule; msg = msg } ∷ [] }
      → Step env e e'
  wakes :
      (before after : List Task) (t : Task)
      → e.tasks ≡ before ++ t ∷ after
      → e' ≡ record { world = execute env t.rule t.msg none e.world; tasks = before ++ after }
      → Step env e e'
  calls :
      (c : Call)
      → IsEdit c
      → e' ≡ record e { world = record e.world { store = History.step e.world.store c } }
      → Step env e e'

pub data Reach (env : Env) (e : Engine) : Engine → Type 0 where
  here : Reach env e e
  next : {e' e'' : Engine} → Reach env e e' → Step env e' e'' → Reach env e e''

pub fired_once :
    (env : Env) (w : World) (rule : Row Rule) (m : Row Message) (r : Rule)
    → find_rule rule.id w.store ≡ some r
    → find_rule rule.id (execute env rule m none w).store ≡ some (count_firing r)
fired_once env w rule m r there =
    ap (λ (t : Table Rule). find rule.id t.rows) (rules-execute env rule m none w)
    ∙ increment_fired_lem (pos rule.id) w.store rule.id
    ∙ ground (arith, there)

past_count : (count : ℤ) (n : ℕ) → count ≡ pos (suc n) → count <ℤ pos (suc (suc n))
past_count count n e = ground arith

-- A rule with one firing left that is the first match of two messages can be fired by both, whatever
-- its delay, since the second message may be matched before the first one's task has counted its
-- firing. It then has fired once more than its count allows.
pub overshoot :
    (env : Env) (w : World) (rule : Row Rule) (m1 m2 : Row Message)
    → first_match m1.cols (get_rules w.store) ≡ some rule
    → first_match m2.cols (get_rules w.store) ≡ some rule
    → find_rule rule.id w.store ≡ some rule.cols
    → rule.cols.count ≡ pos (suc rule.cols.fired)
    → (e : Engine) × Reach env (record { world = w; tasks = [] }) e
      × (r : Rule) × (find_rule rule.id e.world.store ≡ some r)
      × (r.count <ℤ pos r.fired)
overshoot env w rule m1 m2 f1 f2 there one_left =
    let t1 : Task = record { rule = rule; msg = m1 } in
    let t2 : Task = record { rule = rule; msg = m2 } in
    let w1 = execute env rule m1 none w in
    let w2 = execute env rule m2 none w1 in
    (
      record { world = w2; tasks = [] },
      next {e' = record { world = w1; tasks = t2 ∷ [] }}
          (next {e' = record { world = w; tasks = t1 ∷ t2 ∷ [] }}
            (next {e' = record { world = w; tasks = t1 ∷ [] }} (next here (arrives rule m1 f1 refl))
              (arrives rule m2 f2 refl))
            (wakes [] (t2 ∷ []) t1 refl refl))
          (wakes [] [] t2 refl refl),
      count_firing (count_firing rule.cols),
      fired_once env w1 rule m2 _ (fired_once env w rule m1 rule.cols there),
      past_count rule.cols.count rule.cols.fired one_left,
    )
