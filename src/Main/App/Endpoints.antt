-- ===== src/Main/App/Endpoints.antt =====
-- The HTTP endpoints of sctp_probe/main.py, each run from end to end by one task.
use sctp_probe.Prelude.{ℕ, List, [], ◌∷◌, Option, none, some, Text, ℤ, length}
use sctp_probe.Dict.{keys}
use sctp_probe.Table.{Row}
use sctp_probe.Store
use sctp_probe.Store.{Message, Rule, NewRule, Summary}
use sctp_probe.Export.Capture
use sctp_probe.Server
use sctp_probe.Server.{ListenerStatus, StartResult, StartError, started, refused, already_listening}
use sctp_probe.Client
use sctp_probe.Client.{ConnStatus, ConnectResult, opened}
use sctp_probe.Main
use sctp_probe.Main.{SendBody, sent_bytes}
use sctp_probe.Main.App.{App, Outside, env_of}

-- A body of the right types, with the defaults filled in.
pub record RuleBody : Type 0 where
  pub match_pdu_type : Text
  pub match_message_identifier : Option Text
  pub match_serial_number : Option Text
  pub match_peer_addr : Option Text
  pub action : Text
  pub reply_template : Option Text
  pub delay_ms : ℤ
  pub count : ℤ

pub data Request : Type 0 where
  server_start : ℕ → ℕ → Text → Request
  server_stop : Option ℕ → Request
  server_status : Request
  client_connect : Text → ℕ → ℕ → Request
  client_disconnect : Option Text → Request
  client_status : Request
  create_rule : RuleBody → Request
  list_rules : Request
  delete_rule : ℤ → Request
  delete_all_rules : Request
  get_messages : ℤ → Option Text → Option Text → ℤ → Request
  delete_messages : Request
  send_bytes : SendBody → Request
  reset_session : Request
  export_json : Option Text → Request
  export_pcap : Option Text → Request

-- A reply with its body, the status of an HTTPException, or another exception.
pub data Response : Type 0 where
  listening : ℕ → Text → Response
  stopped : List ℕ → Response
  listeners : List ListenerStatus → Response
  connected : Text → Response
  disconnected : List Text → Response
  connections : List ConnStatus → Response
  rule : Row Rule → Response
  rules : List (Row Rule) → Response
  deleted : ℕ → Response
  messages : List (Row Message) → ℕ → Response
  sent : ℕ → Response
  summary : Summary → Response
  json : List (Row Message) → Response
  pcap : List ℕ → Response
  http_error : ℕ → Response
  server_error : Response

unfoldable pub start_reply : StartResult → ℕ → Text → App → Response × App
start_reply (started s) port host app = (listening port host, record app { server = s })
start_reply (refused already_listening) port host app = (http_error 409, app)
start_reply (refused StartError.unavailable) port host app = (http_error 503, app)
start_reply (refused StartError.os_error) port host app = (server_error, app)

unfoldable pub stop_reply : Option ℕ → App → Response × App
stop_reply (some port) app =
    (stopped (port ∷ []), record app { server = Server.stop port app.server })
stop_reply none app =
    (stopped (keys app.server.listeners), record app { server = Server.stop_all app.server })

unfoldable pub connect_reply : ConnectResult × Client.SctpClient → App → Response × App
connect_reply (opened id, c) app = (connected id, record app { client = c })
connect_reply (ConnectResult.refused Client.ConnectError.unavailable, c) app =
    (http_error 503, record app { client = c })
connect_reply (ConnectResult.refused Client.ConnectError.os_error, c) app =
    (http_error 502, record app { client = c })

-- `if body.id:` takes the empty name for a missing one.
unfoldable pub disconnect_reply : Option Text → App → Response × App
disconnect_reply (some (c ∷ id)) app =
    (disconnected ((c ∷ id) ∷ []), record app { client = Client.disconnect (c ∷ id) app.client })
disconnect_reply _ app =
    (disconnected (keys app.client.conns), record app { client = Client.disconnect_all app.client })

with_store : Store.Store → App → App
with_store s app = record app { world = record app.world { store = s } }

-- body.model_dump(), which has no key 'active'
abbrev pub new_rule : RuleBody → NewRule
new_rule b = record {
  active = none;
  match_pdu_type = some b.match_pdu_type;
  match_message_identifier = b.match_message_identifier;
  match_serial_number = b.match_serial_number;
  match_peer_addr = b.match_peer_addr;
  action = some b.action;
  reply_template = b.reply_template;
  delay_ms = some b.delay_ms;
  count = some b.count;
}

unfoldable pub send_response : Main.Reply → Response
send_response (Main.sent_bytes n) = sent n
send_response (Main.http_error code) = http_error code
send_response Main.server_error = server_error

unfoldable pub pcap_response : Option (List ℕ) → Response
pcap_response none = server_error
pcap_response (some bytes) = pcap bytes

reset_reply : Text → App → Response × App
unfolding with_store
reset_reply new_id app =
    let (result, s) = Store.reset_session new_id app.world.store in
    (summary result, with_store s app)

export_json_reply : Option Text → App → Response × App
export_json_reply session_id app = (json (Capture.export_json session_id app.world.store), app)

unfoldable pub handle : Outside → Request → App → Response × App
unfolding start_reply stop_reply connect_reply disconnect_reply with_store send_response
    pcap_response reset_reply export_json_reply
handle out (server_start port ppid host) app =
    start_reply (Server.start out.sctp_available out.created port ppid host app.server) port host
      app
handle out (server_stop port) app = stop_reply port app
handle out server_status app = (listeners (Server.status app.server), app)
handle out (client_connect host port ppid) app =
    connect_reply (Client.connect out.sctp_available out.created host port ppid app.client) app
handle out (client_disconnect id) app = disconnect_reply id app
handle out client_status app = (connections (Client.status app.client), app)
handle out (create_rule body) app =
    let (row, s) = Store.save_rule (new_rule body) app.world.store in (rule row, with_store s app)
handle out list_rules app = (rules (Store.get_rules app.world.store), app)
handle out (delete_rule rule_id) app =
    let (n, s) = Store.delete_rule rule_id app.world.store in (deleted n, with_store s app)
handle out delete_all_rules app =
    let (n, s) = Store.delete_all_rules app.world.store in (deleted n, with_store s app)
handle out (get_messages since_id direction pdu_type limit) app =
    let page = Store.get_messages since_id direction pdu_type limit app.world.store in
    (messages page (length page), app)
handle out delete_messages app =
    let (n, s) = Store.delete_all_messages app.world.store in (deleted n, with_store s app)
handle out (send_bytes body) app =
    let (reply, w) = Main.send_bytes (env_of out app) body app.world in
    (send_response reply, record app { world = w })
handle out reset_session app = reset_reply out.uuid app
handle out (export_json session_id) app = export_json_reply session_id app
handle out (export_pcap session_id) app =
    (pcap_response (Capture.export_pcap out.clock session_id app.world.store), app)
