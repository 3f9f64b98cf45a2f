-- ===== src/Store/RuleTable.antt =====
-- The rules behind the CRUD calls, key by key, and what a session reset leaves.
use sctp_probe.Prelude.{
  ℕ, suc, ◌≡◌, refl, true, List, [], ◌∷◌, ◌++◌, Option, none, some, Text, ℤ, pos, arith, filter,
  filter-append, eq_ℤ, if◌then◌else◌, is_some, ap, not, length,
}
use mathlib.Core.Option
use sctp_probe.Table.{Row, IsTable, insert, select, delete, update}
use sctp_probe.Table.Find.{find, find-filter, find-update, find-append, find_above, count_key}
use sctp_probe.Store
use sctp_probe.Store.{
  Rule, NewRule, save_rule, get_rules, delete_rule, delete_all_rules, increment_fired,
  reset_session, count_firing, rule_columns, get_messages,
}

-- The rule with the key `k`.
abbrev pub find_rule : ℕ → Store.Store → Option Rule
find_rule k s = find k s.rules.rows

-- DELETE /api/rules/k removes the rule `k` and no other, and reports 1 if there was one and 0 if
-- not. (The keys of the table rise along its rows, as those of every store in use do.)
delete_rule_lem :
    (k : ℕ) (s : Store.Store)
    → IsTable s.rules
    → ((delete_rule (pos k) s).0 ≡ (if is_some (find_rule k s) then 1 else 0))
      × ((j : ℕ)
          → find_rule j (delete_rule (pos k) s).1
            ≡ (if eq_ℤ (pos j) (pos k) then none else find_rule j s))
unfolding delete_rule delete
delete_rule_lem k s v =
    (count_key k 0 s.rules.seq s.rules.rows v, λ j. find-filter (pos k) j s.rules.rows)

-- A firing adds one to `fired` of its rule and changes nothing else in the table; if the rule is
-- gone, nothing changes at all.
pub increment_fired_lem :
    (k : ℤ) (s : Store.Store) (j : ℕ)
    → find_rule j (increment_fired k s)
      ≡ (if eq_ℤ (pos j) k then Option.map count_firing (find_rule j s) else find_rule j s)
unfolding increment_fired update
increment_fired_lem k s j = find-update k count_firing j s.rules.rows

-- A new rule is found under its key with `fired` 0, every other rule stays as it is, and the new one
-- stands last among the active rules if it is active. (The keys of the table rise along its rows, as
-- those of every store in use do.)
pub save_rule_lem :
    (r : NewRule) (s : Store.Store)
    → IsTable s.rules
    → let (row, s') = save_rule r s in
      ((j : ℕ)
        → find_rule j s'
          ≡ (if eq_ℤ (pos j) (pos row.id) then some (rule_columns r) else find_rule j s))
      × ((rule_columns r).fired ≡ 0)
      × (get_rules s' ≡ get_rules s ++ (if (rule_columns r).active then row ∷ [] else []))
unfolding save_rule insert get_rules select rule_columns
save_rule_lem r s v =
    let new : Row Rule = record { id = suc s.rules.seq; cols = rule_columns r } in
    (
      λ j.
          ground (arith, find-append j s.rules.rows new, find_above j 0 s.rules.seq s.rules.rows v),
      refl,
      filter-append (λ x. x.cols.active) s.rules.rows (new ∷ []),
    )

pub no_row {ℓ} : {A : Type ℓ} (rs : List (Row A)) → filter (λ _. not true) rs ≡ []
no_row [] = refl
no_row (r ∷ rs) = no_row rs

-- POST /api/session/reset leaves no rule, active or not, and sets the new session. It deletes no message, though
-- its reply calls all of them cleared: every request for messages is answered as before it. The
-- keys of deleted rules are not given out again.
pub reset_session_lem :
    (new_id : Text) (s : Store.Store)
    → let (summary, s') = reset_session new_id s in
      (s'.rules.rows ≡ [])
      × (get_rules s' ≡ [])
      × ((uuid : Text) → Store.get_session_id uuid s' ≡ new_id)
      × ((since : ℤ) (direction pdu_type : Option Text) (limit : ℤ)
          → get_messages since direction pdu_type limit s'
            ≡ get_messages since direction pdu_type limit s)
      × (summary.cleared_messages ≡ length s'.messages.rows)
      × ((r : NewRule) → (save_rule r s').0.id ≡ suc s.rules.seq)
unfolding reset_session delete get_rules select get_messages Store.get_session_id save_rule insert
reset_session_lem new_id s = (
  no_row s.rules.rows,
  ap (filter (λ r. r.cols.active)) (no_row s.rules.rows),
  λ uuid. refl,
  λ since direction pdu_type limit. refl,
  refl,
  λ r. refl,
)
