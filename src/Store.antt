-- ===== src/Store.antt =====
-- sctp_probe/store.py and sctp_probe/session.py: the database as a value, one function for each
-- `_…_sync` method. Such a method runs as a whole under `_conn_lock`, so it is one step.
-- A fresh UUID and the time are arguments. Keys and numbers are not bounded by SQLite's 64 bits. A
-- column `decoded` holds the value that json.loads reads from the stored text.
pub mod Log
pub mod Polling
pub mod RuleTable
pub mod History
pub mod Spec
pub mod Refinement
pub mod Connections
use sctp_probe.Prelude.{
  ℕ, suc, ◌+◌, Bool, true, false, ◌&&◌, List, [], ◌∷◌, Option, none, some, Text, codes, text_eq, ℤ,
  pos, ltb_ℤ, eq_ℤ, if◌then◌else◌, or_default, length, take,
}
use sctp_probe.Prelude.Int.{min_ℤ, max_ℤ, pos_part}
use sctp_probe.Value.{PyVal, json}
use sctp_probe.Table.{Row, Table, no_rows, insert, select, delete, update}
use mathlib.Core.Option

-- The columns of `messages` behind `id`.
pub record Message : Type 0 where
  pub session_id : Text
  pub timestamp : Text
  pub direction : Text
  pub transport : Text
  pub local_port : Option ℕ
  pub peer_addr : Option Text
  pub protocol : Text
  pub pdu_type : Option Text
  pub message_identifier : Option Text
  pub serial_number : Option Text
  pub decoded : Option PyVal
  pub raw_hex : Text
  pub raw_bytes_b64 : Text
  pub rule_id : Option ℕ

-- The columns of `rules` behind `id`.
pub record Rule : Type 0 where
  pub active : Bool
  pub match_pdu_type : Text
  pub match_message_identifier : Option Text
  pub match_serial_number : Option Text
  pub match_peer_addr : Option Text
  pub action : Text
  pub reply_template : Option Text
  pub delay_ms : ℤ
  pub count : ℤ
  pub fired : ℕ

-- `session` is the value of the key 'session_id' in `meta`.
pub record Store : Type 0 where
  pub messages : Table Message
  pub rules : Table Rule
  pub session : Option Text

-- The argument of save_message. In a column that is NOT NULL, `none` is a key that the dict lacks.
pub record NewMessage : Type 0 where
  pub session_id : Option Text
  pub timestamp : Option Text
  pub direction : Option Text
  pub transport : Option Text
  pub local_port : Option ℕ
  pub peer_addr : Option Text
  pub protocol : Option Text
  pub pdu_type : Option Text
  pub message_identifier : Option Text
  pub serial_number : Option Text
  pub decoded : Option PyVal
  pub raw_hex : Option Text
  pub raw_bytes_b64 : Option Text
  pub rule_id : Option ℕ

-- The argument of save_rule.
pub record NewRule : Type 0 where
  pub active : Option Bool
  pub match_pdu_type : Option Text
  pub match_message_identifier : Option Text
  pub match_serial_number : Option Text
  pub match_peer_addr : Option Text
  pub action : Option Text
  pub reply_template : Option Text
  pub delay_ms : Option ℤ
  pub count : Option ℤ

-- A new database file.
abbrev pub no_tables : Store
no_tables = record { messages = no_rows; rules = no_rows; session = none }

-- CREATE TABLE IF NOT EXISTS keeps what is there, and so does INSERT OR IGNORE.
unfoldable pub init_db : Text → Store → Store
init_db uuid s = record s { session = some (or_default s.session uuid) }

unfoldable pub get_session_id : Text → Store → Text
get_session_id uuid s = or_default s.session uuid

unfoldable pub message_columns : Text → NewMessage → Message
message_columns now m = record {
  session_id = or_default m.session_id [];
  timestamp = or_default m.timestamp now;
  direction = or_default m.direction (codes "inbound");
  transport = or_default m.transport (codes "sctp");
  local_port = m.local_port;
  peer_addr = m.peer_addr;
  protocol = or_default m.protocol (codes "raw");
  pdu_type = m.pdu_type;
  message_identifier = m.message_identifier;
  serial_number = m.serial_number;
  decoded = Option.map json m.decoded;
  raw_hex = or_default m.raw_hex [];
  raw_bytes_b64 = or_default m.raw_bytes_b64 [];
  rule_id = m.rule_id;
}

unfoldable pub save_message : Text → NewMessage → Store → Row Message × Store
save_message now m s =
    let (row, messages) = insert (message_columns now m) s.messages in
    (row, record s { messages = messages })

-- `if direction:` adds the clause; NULL equals no text.
unfoldable pub direction_clause : Option Text → Message → Bool
direction_clause none m = true
direction_clause (some []) m = true
direction_clause (some (c ∷ cs)) m = text_eq m.direction (c ∷ cs)

equals_column : Option Text → Text → Bool
equals_column none t = false
equals_column (some s) t = text_eq s t

unfoldable pub pdu_type_clause : Option Text → Message → Bool
unfolding equals_column
pdu_type_clause none m = true
pdu_type_clause (some []) m = true
pdu_type_clause (some (c ∷ cs)) m = equals_column m.pdu_type (c ∷ cs)

unfoldable pub where_clause : ℤ → Option Text → Option Text → Row Message → Bool
where_clause since_id direction pdu_type r =
    ltb_ℤ since_id (pos r.id)
    && (direction_clause direction r.cols && pdu_type_clause pdu_type r.cols)

-- min(max(1, limit), 1000)
unfoldable pub clamp_limit : ℤ → ℕ
clamp_limit limit = pos_part (min_ℤ (max_ℤ (pos 1) limit) (pos 1000))

unfoldable pub get_messages : ℤ → Option Text → Option Text → ℤ → Store → List (Row Message)
get_messages since_id direction pdu_type limit s =
    take (clamp_limit limit) (select (where_clause since_id direction pdu_type) s.messages)

unfoldable pub rule_columns : NewRule → Rule
rule_columns r = record {
  active = or_default r.active true;
  match_pdu_type = or_default r.match_pdu_type (codes "*");
  match_message_identifier = r.match_message_identifier;
  match_serial_number = r.match_serial_number;
  match_peer_addr = r.match_peer_addr;
  action = or_default r.action (codes "auto_reply");
  reply_template = r.reply_template;
  delay_ms = or_default r.delay_ms (pos 0);
  count = or_default r.count (pos 0);
  fired = 0;
}

unfoldable pub save_rule : NewRule → Store → Row Rule × Store
save_rule r s =
    let (row, rules) = insert (rule_columns r) s.rules in (row, record s { rules = rules })

unfoldable pub get_rules : Store → List (Row Rule)
get_rules s = select (λ r. r.cols.active) s.rules

abbrev pub has_id {ℓ} : {A : Type ℓ} → ℤ → Row A → Bool
has_id rule_id r = eq_ℤ (pos r.id) rule_id

unfoldable pub delete_rule : ℤ → Store → ℕ × Store
delete_rule rule_id s =
    let (rowcount, rules) = delete (has_id rule_id) s.rules in
    (rowcount, record s { rules = rules })

unfoldable pub delete_all_rules : Store → ℕ × Store
delete_all_rules s =
    let (rowcount, rules) = delete (λ _. true) s.rules in (rowcount, record s { rules = rules })

unfoldable pub delete_all_messages : Store → ℕ × Store
delete_all_messages s =
    let (rowcount, messages) = delete (λ _. true) s.messages in
    (rowcount, record s { messages = messages })

-- SELECT COUNT(*)
abbrev pub row_count {ℓ} : {A : Type ℓ} → Table A → ℕ
row_count t = length t.rows

-- `new_id` is the fresh UUID. The result is the summary of session.py's `reset`.
pub record Summary : Type 0 where
  pub session_id : Text
  pub cleared_messages : ℕ
  pub cleared_rules : ℕ

unfoldable pub reset_session : Text → Store → Summary × Store
reset_session new_id s = (
  record {
    session_id = new_id;
    cleared_messages = row_count s.messages;
    cleared_rules = row_count s.rules;
  },
  record s { session = some new_id; rules = (delete (λ _. true) s.rules).1 },
)

abbrev pub count_firing : Rule → Rule
count_firing r = record r { fired = suc r.fired }

unfoldable pub increment_fired : ℤ → Store → Store
increment_fired rule_id s = record s { rules = update (has_id rule_id) count_firing s.rules }
