-- ===== src/Store/Spec.antt =====
-- What a client of the store may rely on, with neither tables nor keys' bookkeeping in sight: the log is
-- a list behind a number of forgotten messages, and the rules are a function of their keys.
use sctp_probe.Prelude.{
  ℕ, suc, ◌+◌, ◌-◌, ◌==◌, leb, List, [], ◌∷◌, ◌++◌, Option, none, some, Text, ℤ, eq_ℤ,
  if◌then◌else◌, length, take, drop, or_default,
}
use mathlib.Core.Option
use sctp_probe.Table.{Row}
use sctp_probe.Store.{Message, Rule, message_columns, rule_columns, count_firing}
use sctp_probe.Store.History.{
  Call, init, saves_message, saves_rule, deletes_rule, deletes_rules, deletes_messages, resets,
  fires,
}

pub record Spec : Type 0 where
  pub forgotten : ℕ
  pub log : List Message
  pub rule_at : ℕ → Option Rule
  pub last_rule : ℕ
  pub session : Option Text

abbrev pub empty : Spec
empty = record { forgotten = 0; log = []; rule_at = λ k. none; last_rule = 0; session = none }

abbrev pub step : Spec → Call → Spec
step a (init uuid) = record a { session = some (or_default a.session uuid) }
step a (saves_message now m) = record a { log = a.log ++ message_columns now m ∷ [] }
step a (saves_rule r) = record a {
  rule_at = λ k. if k == suc a.last_rule then some (rule_columns r) else a.rule_at k;
  last_rule = suc a.last_rule;
}
step a (deletes_rule i) = record a { rule_at = λ k. if eq_ℤ (ℤ.pos k) i then none else a.rule_at k }
step a deletes_rules = record a { rule_at = λ k. none }
step a deletes_messages = record a { forgotten = a.forgotten + length a.log; log = [] }
step a (resets new_id) = record a { rule_at = λ k. none; session = some new_id }
step a (fires i) = record a {
  rule_at = λ k. if eq_ℤ (ℤ.pos k) i then Option.map count_firing (a.rule_at k) else a.rule_at k;
}

abbrev pub run : Spec → List Call → Spec
run a [] = a
run a (c ∷ cs) = run (step a c) cs

-- The messages of a list with their keys, counted from `n`.
abbrev pub numbered : ℕ → List Message → List (Row Message)
numbered n [] = []
numbered n (m ∷ ms) = record { id = suc n; cols = m } ∷ numbered (suc n) ms

-- A limit counts from 1 to 1000.
abbrev pub page_size : ℤ → ℕ
page_size (ℤ.pos n) = if n == 0 then 1 else if leb n 1000 then n else 1000
page_size (ℤ.negsuc n) = 1

-- The page behind the key `since_id`, without filters.
abbrev pub page : ℕ → ℤ → Spec → List (Row Message)
page since_id limit a =
    let seen = since_id - a.forgotten in
    take (page_size limit) (numbered (a.forgotten + seen) (drop seen a.log))
