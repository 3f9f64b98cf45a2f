-- ===== src/Tests/Logs.antt =====
-- The store: sctp_probe/store.py
use sctp_probe.Prelude.{
  true, suc, ◌<◌, ◌≡◌, refl, List, [], ◌∷◌, Option, none, some, Text, codes, ℤ, pos, negsuc, arith,
  length, text_eq,
}
use sctp_probe.Table.{insert, select}
use sctp_probe.Store
use sctp_probe.Store.{
  NewMessage, NewRule, save_message, save_rule, get_messages, get_rules, delete_rule,
  increment_fired, reset_session, count_firing, rule_columns, where_clause, clamp_limit,
  direction_clause, pdu_type_clause, message_columns,
}
use sctp_probe.Store.History.{
  Call, saves_message, saves_rule, deletes_messages, run, step, IsStore, run-IsStore,
}
use sctp_probe.Store.Polling.{poll, poll_complete}
use sctp_probe.Store.RuleTable.{reset_session_lem}
use sctp_probe.Store.Connections.{Failure, connect, statement, Database, new_database, call_sync}
use sctp_probe.Store.Connections.Committed.{call_sync-none}
use sctp_probe.Store.Spec
use sctp_probe.Store.Spec.{page}
use sctp_probe.Store.Refinement.{Refines, run-Refines, get_messages-page}
use sctp_probe.Store.History.{fires, deletes_rule, deletes_rules, init, resets}

abbrev came_in : NewMessage
came_in = record {
  session_id = some (codes "s1");
  timestamp = none;
  direction = some (codes "inbound");
  transport = none;
  local_port = some 29168;
  peer_addr = some (codes "10.0.0.2:40000");
  protocol = some (codes "SBc-AP");
  pdu_type = some (codes "WRR_REQ");
  message_identifier = some (codes "0x1112");
  serial_number = some (codes "0x0001");
  decoded = none;
  raw_hex = some (codes "00");
  raw_bytes_b64 = some (codes "AA==");
  rule_id = none;
}

abbrev went_out : NewMessage
went_out = record came_in {
  direction = some (codes "outbound");
  pdu_type = some (codes "WRR_RESP");
}

abbrev any_rule : NewRule
any_rule = record {
  active = none;
  match_pdu_type = none;
  match_message_identifier = none;
  match_serial_number = none;
  match_peer_addr = none;
  action = some (codes "log_only");
  reply_template = none;
  delay_ms = none;
  count = none;
}

abbrev calls : List Call
calls =
    saves_message (codes "t1") came_in
    ∷ saves_rule any_rule
    ∷ saves_message (codes "t2") went_out
    ∷ saves_message (codes "t3") came_in
    ∷ []

store : Store.Store
unfolding run step insert message_columns rule_columns
store = run Store.no_tables calls

store-IsStore : IsStore store
unfolding store
store-IsStore = run-IsStore calls

page_of_one : length (get_messages (pos 1) (some (codes "inbound")) none (negsuc 4) store) ≡ 1
unfolding store get_messages select where_clause clamp_limit direction_clause pdu_type_clause
    text_eq
page_of_one = refl

poll_complete_example :
    poll (some (codes "inbound")) none (pos 0) store 4 0
    ≡ select (where_clause (pos 0) (some (codes "inbound")) none) store.messages
poll_complete_example =
    poll_complete (some (codes "inbound")) none (pos 0) store 4 0 store-IsStore.messages_IsTable
      (few_asked)
  where
    few_asked :
        length (select (where_clause (pos 0) (some (codes "inbound")) none) store.messages) < 4
    few_asked =
        unfold store select where_clause direction_clause pdu_type_clause text_eq in omega arith

reset_session_lem_example :
    let (summary, s') = reset_session (codes "s2") store in
    (s'.rules.rows ≡ [])
    × (get_rules s' ≡ [])
    × ((uuid : Text) → Store.get_session_id uuid s' ≡ codes "s2")
    × ((since : ℤ) (direction pdu_type : Option Text) (limit : ℤ)
        → get_messages since direction pdu_type limit s'
          ≡ get_messages since direction pdu_type limit store)
    × (summary.cleared_messages ≡ length s'.messages.rows)
    × ((r : NewRule) → (save_rule r s').0.id ≡ suc store.rules.seq)
reset_session_lem_example = reset_session_lem (codes "s2") store

abbrev busy_day : List Call
busy_day =
    saves_message (codes "t1") came_in
    ∷ saves_rule any_rule
    ∷ fires (pos 1)
    ∷ deletes_messages
    ∷ saves_message (codes "t2") went_out
    ∷ saves_rule any_rule
    ∷ deletes_rule (pos 1)
    ∷ saves_message (codes "t3") came_in
    ∷ []

run-Refines_example : Refines (run Store.no_tables busy_day) (Spec.run Spec.empty busy_day)
run-Refines_example = run-Refines busy_day

get_messages-page_example :
    get_messages (pos 2) none none (pos 10) (run Store.no_tables busy_day)
    ≡ record { id = 3; cols = message_columns (codes "t3") came_in } ∷ []
unfolding clamp_limit
get_messages-page_example = get_messages-page busy_day 2 (pos 10)

-- A new file, a reset whose deletion raises, one without a connection, and a message whose row cannot
-- be read back.
abbrev file : Database
file = new_database (codes "sctp_probe.db")

abbrev attempts : List (Option Failure × Call)
attempts =
    (none, init (codes "s1"))
    ∷ (none, saves_rule any_rule)
    ∷ (some (statement 3), resets (codes "s2"))
    ∷ (some connect, deletes_rules)
    ∷ (some (statement 2), saves_message (codes "t1") came_in)
    ∷ []

call_sync-none_example :
    let db = new_database (codes ":memory:") in
    call_sync none (init (codes "s1")) db ≡ (
      true,
      record db {
        saved = step Store.no_tables (init (codes "s1"));
        view = step Store.no_tables (init (codes "s1"));
      },
    )
call_sync-none_example = call_sync-none (init (codes "s1")) (new_database (codes ":memory:")) refl
