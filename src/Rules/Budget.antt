-- ===== src/Rules/Budget.antt =====
-- The count of a rule is an upper bound of its firings, as long as one message is handled at a time.
use sctp_probe.Prelude.{
  ℕ, suc, ◌≤◌, ◌<◌, ◌≡◌, refl, Bool, true, List, [], ◌∷◌, Option, none, some, Text, arith, pos,
  filter, inl, inr, Option-cases,
}
use sctp_probe.Table.{Row, Table, Ascending, IsTable, select}
use sctp_probe.Table.Find.{find}
use sctp_probe.Table.Order.{update-IsTable}
use sctp_probe.Store.{Store, Message, Rule, get_rules, increment_fired}
use sctp_probe.Store.RuleTable.{find_rule, increment_fired_lem}
use sctp_probe.Rules.{Env, World, evaluate, execute, first_match, matches, execute_found}
use sctp_probe.Rules.Matching.{IsMatch, matches_iff}
use sctp_probe.Rules.Effects.{rules-execute}

-- No rule with a positive count has fired more often than its count.
abbrev pub WithinBudget : Table Rule → Type 0
WithinBudget rules =
    (k c : ℕ) (r : Rule) → find k rules.rows ≡ some r → r.count ≡ pos (suc c) → r.fired ≤ suc c

-- The rule that is taken is the one in the table under its key.
pub first_match-find :
    (m : Message) (p : Row Rule → Bool) (lo hi : ℕ) (rows : List (Row Rule)) (rule : Row Rule)
    → Ascending lo hi rows
    → first_match m (filter p rows) ≡ some rule
    → (lo < rule.id) × (find rule.id rows ≡ some rule.cols) × (matches rule.cols m ≡ true)
unfolding first_match find
first_match-find m p lo hi [] rule h e = absurd (cc e)
first_match-find m p lo hi (r ∷ rows) rule h e =
    ground (arith, first_match-find m p r.id hi rows rule h.1)

firing_keeps :
    (s : Store) (rule : Row Rule) (m : Message)
    → find_rule rule.id s ≡ some rule.cols
    → IsMatch rule.cols m
    → WithinBudget s.rules
    → WithinBudget (increment_fired (pos rule.id) s).rules
firing_keeps s rule m e v h k c r found counted = elim (Option-cases (find_rule k s)) [
  | inl gone ↦ ground (arith, increment_fired_lem (pos rule.id) s k)
  | inr (r', there) ↦
      ground (arith, increment_fired_lem (pos rule.id) s k, h k c r' there, v.not_spent)
]

-- The rules after a message: as before it, or with one firing of a rule that could still fire.
abbrev pub IsKept : Table Rule → Table Rule → Type 0
IsKept old new = WithinBudget old → IsTable old → WithinBudget new × IsTable new

execute-IsKept :
    (env : Env) (msg : Row Message) (source : Option (Option Text)) (w : World) (rule : Row Rule)
    → first_match msg.cols (get_rules w.store) ≡ some rule
    → IsKept w.store.rules (execute env rule msg source w).store.rules
unfolding get_rules select
execute-IsKept env msg source w rule e h t =
    let (_, found, hit) =
      first_match-find msg.cols (λ r. r.cols.active) 0 w.store.rules.seq w.store.rules.rows rule t
        e in
    rw (rules-execute env rule msg source w) (
      firing_keeps w.store rule msg.cols found ((matches_iff rule.cols msg.cols).0 hit) h,
      (unfold increment_fired in update-IsTable _ _ w.store.rules t),
    )

pub evaluate-IsKept :
    (env : Env) (msg : Row Message) (source : Option (Option Text)) (w : World)
    → IsKept w.store.rules (evaluate env msg source w).store.rules
unfolding evaluate
evaluate-IsKept env msg source w = go (first_match msg.cols (get_rules w.store)) refl
  where
    go :
        (o : Option (Row Rule))
        → first_match msg.cols (get_rules w.store) ≡ o
        → IsKept w.store.rules (execute_found env o msg source w).store.rules
    go none e = λ h t. (h, t)
    go (some rule) e = execute-IsKept env msg source w rule e

-- Messages handled one after the other, each in the environment that it finds.
unfoldable pub evaluate_all : List (Env × Row Message × Option (Option Text)) → World → World
evaluate_all [] w = w
evaluate_all ((env, msg, source) ∷ rest) w = evaluate_all rest (evaluate env msg source w)

-- If messages are handled one at a time, no rule with a positive count ever fires more often than
-- its count, however many messages come and whatever becomes of the replies. (The keys of the rules
-- rise along the table, and no rule is above its count at the start.)
pub evaluate_all-WithinBudget :
    (calls : List (Env × Row Message × Option (Option Text))) (w : World)
    → IsTable w.store.rules
    → WithinBudget w.store.rules
    → WithinBudget (evaluate_all calls w).store.rules
unfolding evaluate_all
evaluate_all-WithinBudget [] w t h = h
evaluate_all-WithinBudget ((env, msg, source) ∷ rest) w t h =
    let (h', t') = evaluate-IsKept env msg source w h t in
    evaluate_all-WithinBudget rest (evaluate env msg source w) t' h'
