-- ===== src/Rules/Races/Bound.antt =====
-- By how much a rule can overshoot its count when tasks overlap.
use sctp_probe.Prelude.{
  refl, ℕ, suc, ◌+◌, ◌==◌, ◌≤◌, ◌<◌, ◌≡◌, List, [], ◌∷◌, ◌++◌, none, some, arith, pos, ap, ◌∙◌, sym,
  subst, length, filter, filter-append, length-append, inl, inr, Option-cases, Bool-cases,
  if◌then◌else◌,
}
use sctp_probe.Table.{update, Row, Table, IsTable, select}
use sctp_probe.Table.Find.{find, find_above}
use sctp_probe.Table.Order.{update-IsTable}
use sctp_probe.Store.{Rule, Message, get_rules, increment_fired}
use sctp_probe.Store.RuleTable.{find_rule, increment_fired_lem}
use sctp_probe.Rules.{Env, World, execute, first_match}
use sctp_probe.Rules.Matching.{matches_iff}
use sctp_probe.Rules.Effects.{rules-execute}
use sctp_probe.Rules.Budget.{WithinBudget, first_match-find}
use sctp_probe.Rules.Edits.{IsEdit, Within, edit-Within}
use sctp_probe.Store.History
use sctp_probe.Store.History.{Call, seq-step}
use sctp_probe.Rules.Races.{calls, Task, Engine, Step, arrives, wakes}

-- Steps, each in an environment of its own, after each of which at most `n` tasks sleep.
pub data ReachWithin (n : ℕ) (e : Engine) : Engine → Type 0 where
  here : ReachWithin n e e
  next :
      {e' e'' : Engine} (env : Env)
      → ReachWithin n e e'
      → Step env e' e''
      → length e''.tasks ≤ n
      → ReachWithin n e e''

-- The tasks that will fire the rule under the key `k`.
pending : ℕ → List Task → ℕ
pending k ts = length (filter (λ t. t.rule.id == k) ts)

pending-append : (k : ℕ) (xs ys : List Task) → pending k (xs ++ ys) ≡ pending k xs + pending k ys
unfolding pending
pending-append k xs ys =
    ap length (filter-append (λ t. t.rule.id == k) xs ys)
    ∙ length-append (filter (λ t. t.rule.id == k) xs) _

pending-le : (k : ℕ) (ts : List Task) → pending k ts ≤ length ts
unfolding pending
pending-le k [] = omega arith
pending-le k (t ∷ ts) = ground (arith, pending-le k ts)

-- The firings of a rule, those that are still to come included, are at most `m` above its count, and
-- no task is to fire a rule that is still to be made.
record IsBounded (m : ℕ) (e : Engine) : Type 0 where
  table : IsTable e.world.store.rules
  known : (k : ℕ) → e.world.store.rules.seq < k → pending k e.tasks ≡ 0
  within : Within (λ k. pending k e.tasks) m e.world.store.rules

arrives-IsBounded :
    (m : ℕ) (e : Engine) (rule : Row Rule) (msg : Row Message)
    → first_match msg.cols (get_rules e.world.store) ≡ some rule
    → length e.tasks ≤ m
    → IsBounded m e
    → IsBounded m (record e { tasks = e.tasks ++ record { rule = rule; msg = msg } ∷ [] })
unfolding get_rules select
arrives-IsBounded m e rule msg f few v = record {
  table = v.table;
  known = λ k behind.
      let t : Task = record { rule = rule; msg = msg } in
      let (_, there, _) =
        first_match-find msg.cols (λ x. x.cols.active) 0 e.world.store.rules.seq
          e.world.store.rules.rows rule v.table f in
      let more : pending k (t ∷ []) ≡ (if rule.id == k then 1 else 0) =
        unfold pending in ground arith in
      ground (
        arith,
        more,
        there,
        v.known k,
        pending-append k e.tasks (t ∷ []),
        find_above rule.id 0 e.world.store.rules.seq e.world.store.rules.rows v.table,
      );
  within = λ k c r found counted.
      let t : Task = record { rule = rule; msg = msg } in
      let (_, there, hit) =
        first_match-find msg.cols (λ x. x.cols.active) 0 e.world.store.rules.seq
          e.world.store.rules.rows rule v.table f in
      let fires = (matches_iff rule.cols msg.cols).0 hit in
      let more : pending k (t ∷ []) ≡ (if rule.id == k then 1 else 0) =
        unfold pending in ground arith in
      let all = pending-append k e.tasks (t ∷ []) in
      elim (Bool-cases (rule.id == k)) [
        | inl mine ↦
            let below : r.fired < suc c = ground (arith, there, fires.not_spent) in
            ground (arith, more, all, pending-le k e.tasks, below)
        | inr other ↦ ground (arith, more, all, v.within k c r found counted)
      ];
}

wakes-IsBounded :
    (env : Env) (m : ℕ) (w : World) (before after : List Task) (t : Task)
    → IsBounded m (record { world = w; tasks = before ++ t ∷ after })
    → IsBounded m (record { world = execute env t.rule t.msg none w; tasks = before ++ after })
wakes-IsBounded env m w before after t v = record {
  table =
      rw (rules-execute env t.rule t.msg none w)
        (unfold increment_fired in update-IsTable _ _ w.store.rules v.table);
  known = λ k behind.
      let same_seq : (execute env t.rule t.msg none w).store.rules.seq ≡ w.store.rules.seq =
        ap (λ (x : Table Rule). x.seq) (rules-execute env t.rule t.msg none w)
        ∙ (unfold increment_fired update in refl) in
      let one : pending k (t ∷ after) ≡ (if t.rule.id == k then 1 else 0) + pending k after =
        unfold pending in ground arith in
      ground (
        arith,
        same_seq,
        one,
        v.known k,
        pending-append k before after,
        pending-append k before (t ∷ after),
      );
  within = λ k c r found counted.
      let counts : find_rule k (increment_fired (pos t.rule.id) w.store) ≡ some r =
        ap (λ (x : Table Rule). find k x.rows) (sym (rules-execute env t.rule t.msg none w))
        ∙ found in
      let one : pending k (t ∷ after) ≡ (if t.rule.id == k then 1 else 0) + pending k after =
        unfold pending in ground arith in
      elim (Option-cases (find_rule k w.store)) [
        | inl gone ↦ ground (arith, increment_fired_lem (pos t.rule.id) w.store k)
        | inr (x, there) ↦ ground (
          arith,
          increment_fired_lem (pos t.rule.id) w.store k,
          v.within k c x there,
          pending-append k before after,
          pending-append k before (t ∷ after),
          one,
        )
      ];
}

calls-IsBounded :
    (m : ℕ) (e : Engine) (c : Call)
    → IsEdit c
    → IsBounded m e
    → IsBounded m (record e { world = record e.world { store = History.step e.world.store c } })
calls-IsBounded m e c edit v =
    let (within, table) =
      edit-Within (λ k. pending k e.tasks) m e.world.store c edit v.table v.known v.within in
    record {
      table = table;
      known = λ k behind. v.known k (omega (arith, (seq-step e.world.store c).1));
      within = within;
    }

moves-IsBounded :
    (env : Env) (m : ℕ) (e e' : Engine)
    → Step env e e'
    → length e'.tasks ≤ suc m
    → IsBounded m e
    → IsBounded m e'
moves-IsBounded env m e e' (arrives rule msg f same) few v =
    let t : Task = record { rule = rule; msg = msg } in
    let length_new : length e'.tasks ≡ length e.tasks + 1 =
      ap (λ (x : Engine). length x.tasks) same ∙ length-append e.tasks (t ∷ []) in
    subst (IsBounded m) (sym same) (arrives-IsBounded m e rule msg f (omega arith) v)
moves-IsBounded env m e e' (calls c edit same) few v =
    subst (IsBounded m) (sym same) (calls-IsBounded m e c edit v)
moves-IsBounded env m e e' (wakes before after t woken same) few v =
    subst (IsBounded m) (sym same) (
      wakes-IsBounded env m e.world before after t
        (subst (λ ts. IsBounded m (record { world = e.world; tasks = ts })) woken v))

reach-IsBounded :
    (m : ℕ) (e e' : Engine) → IsBounded m e → ReachWithin (suc m) e e' → IsBounded m e'
reach-IsBounded m e e' v here = v
reach-IsBounded m e e' v (next env r s few) =
    moves-IsBounded env m _ e' s few (reach-IsBounded m e _ v r)

-- If never more than m + 1 tasks sleep at a time, a rule with a positive count fires at most m times
-- more often than its count, in whatever order messages arrive and tasks wake up, and whatever rules
-- are made and deleted, messages saved and sessions reset in between. With one task at a
-- time it keeps to its count. (At the start no task sleeps, the keys of the rules rise along the table,
-- and no rule is above its count.)
pub overshoot_bound :
    (m : ℕ) (w : World) (e : Engine)
    → IsTable w.store.rules
    → WithinBudget w.store.rules
    → ReachWithin (suc m) (record { world = w; tasks = [] }) e
    → (k c : ℕ) (r : Rule) → find_rule k e.world.store ≡ some r
    → r.count ≡ pos (suc c)
    → r.fired ≤ suc c + m
overshoot_bound m w e t h reach k c r found counted =
    let v = reach-IsBounded m _ e start reach in
    let sum = v.within k c r found counted in omega arith
  where
    start : IsBounded m (record { world = w; tasks = [] })
    start = record {
      table = t;
      known = λ k behind. unfold pending in refl;
      within =
          λ k c r found counted. let b = h k c r found counted in unfold pending in omega arith;
    }
