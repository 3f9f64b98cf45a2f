-- ===== src/Rules/Edits.antt =====
-- What becomes of the rules when the store is called between two firings.
use sctp_probe.Prelude.{ℕ, suc, ◌+◌, ◌≤◌, ◌<◌, ◌≡◌, List, some, arith, pos, true}
use sctp_probe.Table.{Row, Table, IsTable, insert, delete}
use sctp_probe.Table.Find.{find, find-filter}
use sctp_probe.Table.Order.{insert-IsTable, delete-IsTable}
use sctp_probe.Store
use sctp_probe.Store.{Rule, rule_columns}
use sctp_probe.Store.RuleTable.{save_rule_lem, no_row}
use sctp_probe.Store.History.{
  Call, init, saves_message, saves_rule, deletes_rule, deletes_rules, deletes_messages, resets,
  fires, step,
}

abbrev pub IsEdit : Call → Type 0
IsEdit (fires k) = ⊥
IsEdit _ = Unit

-- The firings of a rule with a positive count, together with those that are still to come, are at most
-- `m` above its count.
abbrev pub Within : (ℕ → ℕ) → ℕ → Table Rule → Type 0
Within coming m rules =
    (k c : ℕ) (r : Rule)
    → find k rules.rows ≡ some r
    → r.count ≡ pos (suc c)
    → r.fired + coming k ≤ suc c + m

none_left :
    (coming : ℕ → ℕ) (m seq : ℕ) (rows : List (Row Rule))
    → Within coming m (record {
      rows = (delete (λ r. true) (record { rows = rows; seq = seq })).1.rows;
      seq = seq;
    })
unfolding delete find
none_left coming m seq rows = λ k c x. rw (no_row rows) (λ e. absurd (cc e))

-- No firing is to come of a rule that is still to be made.
pub edit-Within :
    (coming : ℕ → ℕ) (m : ℕ) (s : Store.Store) (c : Call)
    → IsEdit c
    → IsTable s.rules
    → ((k : ℕ) → s.rules.seq < k → coming k ≡ 0)
    → Within coming m s.rules
    → Within coming m (step s c).rules × IsTable (step s c).rules
unfolding step delete insert
edit-Within coming m s (init uuid) e t fresh h = (h, t)
edit-Within coming m s (saves_message now x) e t fresh h = (h, t)
edit-Within coming m s deletes_messages e t fresh h = (h, t)
edit-Within coming m s (saves_rule new) e t fresh h = (
  λ k c r found counted.
      let (at, never, last) = save_rule_lem new s t in
      ground (arith, at k, never, h k c r, fresh k),
  insert-IsTable (rule_columns new) s.rules t,
)
edit-Within coming m s (deletes_rule i) e t fresh h = (
  λ k c r found counted. ground (arith, find-filter i k s.rules.rows, h k c r),
  delete-IsTable _ s.rules t,
)
edit-Within coming m s deletes_rules e t fresh h =
    (none_left coming m s.rules.seq s.rules.rows, delete-IsTable (λ r. true) s.rules t)
edit-Within coming m s (resets new_id) e t fresh h =
    (none_left coming m s.rules.seq s.rules.rows, delete-IsTable (λ r. true) s.rules t)
edit-Within coming m s (fires k) e t fresh h = absurd e
