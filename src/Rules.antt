-- ===== src/Rules.antt =====
-- sctp_probe/rules.py. `execute` is what follows the sleep of a rule's delay; the network, the time
-- and a fresh UUID are arguments.
pub mod Matching
pub mod Outcomes
pub mod Effects
pub mod Replies
pub mod Budget
pub mod Races
pub mod Edits
pub mod Growth
use sctp_probe.Prelude.{
  ℕ, Bool, true, false, ◌&&◌, ◌||◌, not, List, [], ◌∷◌, ◌++◌, Option, none, some, Text, codes,
  text_eq, opt_text_eq, if◌then◌else◌, ℤ, pos, eq_ℤ, leb_ℤ,
}
use sctp_probe.Table.{Row}
use sctp_probe.Store.{
  Store, Message, Rule, NewMessage, get_rules, increment_fired, get_session_id, save_message,
}
use sctp_probe.Pycrate.{Pycrate}
use sctp_probe.Decoder.{DecodedMessage, decode, blank}
use sctp_probe.Encoder.{encode, no_kwargs}
use sctp_probe.Server
use sctp_probe.Server.{SctpServer}
use sctp_probe.Client
use sctp_probe.Client.{SctpClient}
use sctp_probe.Ws

-- What the engine is wired to. `send_fails` says on which socket a send of which bytes raises.
pub record Env : Type 0 where
  pub py : Pycrate
  pub server : SctpServer
  pub client : SctpClient
  pub send_fails : ℕ → List ℕ → Bool
  pub gone : ℕ → Bool
  pub now : Text
  pub uuid : Text

pub data Event : Type 0 where
  message : Row Message → Event
  rule_fired : ℕ → ℕ → Event
  connection : Text → Text → ℕ → Event

-- The store, the hub, the bytes that went out on a socket, and what subscribers received.
pub record World : Type 0 where
  pub store : Store
  pub hub : Ws.WsHub
  pub wire : List (ℕ × List ℕ)
  pub received : List (List ℕ × Event)

unfoldable pub filter_fails : Option Text → Option Text → Bool
filter_fails none value = false
filter_fails (some f) value = not (opt_text_eq (some f) value)

-- _match
unfoldable pub matches : Rule → Message → Bool
matches r m =
    if not r.active
    then false
    else if not (text_eq r.match_pdu_type (codes "*"))
        && not (opt_text_eq (some r.match_pdu_type) m.pdu_type)
    then false
    else if filter_fails r.match_message_identifier m.message_identifier
    then false
    else if filter_fails r.match_serial_number m.serial_number
    then false
    else if filter_fails r.match_peer_addr m.peer_addr
    then false
    else if not (eq_ℤ r.count (pos 0)) && leb_ℤ r.count (pos r.fired)
    then false
    else true

unfoldable pub first_match : Message → List (Row Rule) → Option (Row Rule)
first_match m [] = none
first_match m (r ∷ rs) = if matches r.cols m then some r else first_match m rs

-- The outcome of the `try` block that sends a reply: bytes on a socket, nothing sent and nothing
-- raised, or an exception.
pub data Delivery : Type 0 where
  delivered : ℕ → List ℕ → Delivery
  unsent : Delivery
  raised : Delivery

put_on_wire : Env → ℕ → List ℕ → Delivery
put_on_wire env socket raw = if env.send_fails socket raw then raised else delivered socket raw

on_server : Env → Server.Sending → Delivery
on_server env (Server.sends socket raw) = put_on_wire env socket raw
on_server env Server.not_found = unsent

on_client : Env → Client.SendResult → Delivery
on_client env (Client.sends socket raw) = put_on_wire env socket raw
on_client env Client.key_error = raised
on_client env Client.runtime_error = raised

-- `source_conn` is None, or an object that may have a `conn_id`.
by_source : Env → Option (Option Text) → List ℕ → Delivery
by_source env (some (some (c ∷ id))) raw = on_client env (Client.send (c ∷ id) raw env.client)
by_source env _ raw = unsent

unfoldable pub deliver : Env → Option Text → Option (Option Text) → List ℕ → Delivery
unfolding put_on_wire on_server on_client by_source
deliver env (some (c ∷ peer)) source raw =
    on_server env (Server.send_to_peer (c ∷ peer) raw env.server)
deliver env (some []) source raw = by_source env source raw
deliver env none source raw = by_source env source raw

unfoldable pub outbound : Env → Text → ℕ → Message → DecodedMessage → NewMessage
outbound env session_id rule_id m dm = record {
  session_id = some session_id;
  timestamp = some env.now;
  direction = some (codes "outbound");
  transport = some m.transport;
  local_port = m.local_port;
  peer_addr = m.peer_addr;
  protocol = some dm.protocol;
  pdu_type = dm.pdu_type;
  message_identifier = dm.message_identifier;
  serial_number = dm.serial_number;
  decoded = dm.decoded;
  raw_hex = some dm.raw_hex;
  raw_bytes_b64 = some dm.raw_bytes_b64;
  rule_id = some rule_id;
}

unfoldable pub broadcast : Env → Event → World → World
broadcast env event w =
    let (receivers, hub) = Ws.broadcast env.gone w.hub in
    record w { hub = hub; received = w.received ++ (receivers, event) ∷ [] }

-- What follows the `try` block.
unfoldable pub log_reply : Env → Row Rule → Row Message → List ℕ → World → World
unfolding outbound broadcast
log_reply env rule msg raw w =
    let session_id = get_session_id env.uuid w.store in
    let (saved, s) =
      save_message env.now (outbound env session_id rule.id msg.cols (decode env.py raw)) w.store in
    broadcast env (rule_fired rule.id msg.id)
      (broadcast env (message saved) (record w { store = s }))

unfoldable pub after_delivery : Env → Row Rule → Row Message → List ℕ → Delivery → World → World
after_delivery env rule msg raw (delivered socket bytes) w =
    log_reply env rule msg raw (record w { wire = w.wire ++ (socket, bytes) ∷ [] })
after_delivery env rule msg raw unsent w = log_reply env rule msg raw w
after_delivery env rule msg raw raised w = w

unfoldable pub send_reply :
    Env → Row Rule → Row Message → Option (Option Text) → Option (List ℕ) → World → World
send_reply env rule msg source none w = w
send_reply env rule msg source (some raw) w =
    after_delivery env rule msg raw (deliver env msg.cols.peer_addr source raw) w

abbrev pub request_of : Message → DecodedMessage
request_of m = record blank {
  pdu_type = m.pdu_type;
  message_identifier = m.message_identifier;
  serial_number = m.serial_number;
}

unfoldable pub auto_reply :
    Env → Row Rule → Row Message → Option (Option Text) → Option Text → World → World
auto_reply env rule msg source (some (c ∷ template)) w =
    send_reply env rule msg source
      (encode env.py (c ∷ template) (some (request_of msg.cols)) no_kwargs) w
auto_reply env rule msg source _ w = w

-- _execute, from increment_fired on.
unfoldable pub execute : Env → Row Rule → Row Message → Option (Option Text) → World → World
unfolding after_delivery send_reply auto_reply
execute env rule msg source w =
    let w' = record w { store = increment_fired (pos rule.id) w.store } in
    let action = rule.cols.action in
    if text_eq action (codes "drop")
    then w'
    else if text_eq action (codes "log_only")
    then w'
    else if text_eq action (codes "auto_reply")
    then auto_reply env rule msg source rule.cols.reply_template w'
    else w'

pub execute_found : Env → Option (Row Rule) → Row Message → Option (Option Text) → World → World
execute_found env none msg source w = w
execute_found env (some rule) msg source w = execute env rule msg source w

-- `evaluate` when no other task runs between its waits.
unfoldable pub evaluate : Env → Row Message → Option (Option Text) → World → World
unfolding execute_found
evaluate env msg source w =
    execute_found env (first_match msg.cols (get_rules w.store)) msg source w
