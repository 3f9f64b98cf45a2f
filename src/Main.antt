-- ===== src/Main.antt =====
-- sctp_probe/main.py: the callbacks that the server and the client are wired to, and POST /api/send.
-- They run in the World of the rule engine, each from end to end.
pub mod Pipeline
pub mod Attempts
pub mod Sending
pub mod App
pub mod Tasks
use sctp_probe.Prelude.{
  ℕ, ◌+◌, ◌*◌, ◌==◌, leb, Bool, true, false, ◌&&◌, ◌||◌, not, List, [], ◌∷◌, ◌++◌, Option, none,
  some, Text, codes, length, filter, map, if◌then◌else◌,
}
use mathlib.Core.Option
use sctp_probe.Table.{Row}
use sctp_probe.Store.{Store, Message, NewMessage, get_session_id, save_message}
use sctp_probe.Numeral.{digit_value}
use sctp_probe.Dict.{keys}
use sctp_probe.Decoder.{DecodedMessage, decode, blank}
use sctp_probe.Encoder.{encode, no_kwargs}
use sctp_probe.Server
use sctp_probe.Server.{SctpServer, Listener}
use sctp_probe.Client
use sctp_probe.Rules.{Env, World, message, connection, broadcast, evaluate}

-- `msg_dict`
unfoldable pub inbound : Env → Text → DecodedMessage → Text → ℕ → NewMessage
inbound env session_id dm peer_addr local_port = record {
  session_id = some session_id;
  timestamp = some env.now;
  direction = some (codes "inbound");
  transport = some (codes "sctp");
  local_port = some local_port;
  peer_addr = some peer_addr;
  protocol = some dm.protocol;
  pdu_type = dm.pdu_type;
  message_identifier = dm.message_identifier;
  serial_number = dm.serial_number;
  decoded = dm.decoded;
  raw_hex = some dm.raw_hex;
  raw_bytes_b64 = some dm.raw_bytes_b64;
  rule_id = none;
}

-- What is saved, and the world in which the rules are evaluated.
unfoldable pub receive : Env → List ℕ → Text → ℕ → World → Row Message × World
unfolding inbound broadcast
receive env raw_bytes peer_addr local_port w =
    let session_id = get_session_id env.uuid w.store in
    let (saved, s) =
      save_message env.now (inbound env session_id (decode env.py raw_bytes) peer_addr local_port)
        w.store in
    (saved, broadcast env (message saved) (record w { store = s }))

-- _on_message
unfoldable pub on_message : Env → List ℕ → Text → ℕ → World → World
on_message env raw_bytes peer_addr local_port w =
    let (saved, w') = receive env raw_bytes peer_addr local_port w in evaluate env saved none w'

-- _on_event
unfoldable pub on_event : Env → Text → Text → ℕ → World → World
on_event env event_type peer_addr port w = broadcast env (connection event_type peer_addr port) w

-- `none` stands for a missing key.
pub record SendBody : Type 0 where
  pub hex : Option Text
  pub connection_id : Option Text
  pub template : Option Text
  pub message_identifier : Option Text
  pub serial_number : Option Text

-- The reply to the request: its sent_bytes, the status of an HTTPException, or another exception.
pub data Reply : Type 0 where
  sent_bytes : ℕ → Reply
  http_error : ℕ → Reply
  server_error : Reply

-- hex.replace(" ", "")
unfoldable pub drop_blanks : Text → Text
drop_blanks = filter (λ c. not (c == b' '))

is_blank : ℕ → Bool
is_blank c = (leb 9 c && leb c 13) || (c == b' ')

with_byte : Option ℕ → Option ℕ → Option (List ℕ) → Option (List ℕ)
with_byte (some high) (some low) (some bs) = some ((high * 16 + low) ∷ bs)
with_byte _ _ _ = none

-- bytes.fromhex, which skips white space between bytes; `none` is a ValueError.
unfoldable pub from_hex : Text → Option (List ℕ)
unfolding is_blank with_byte
from_hex [] = some []
from_hex (c ∷ []) = if is_blank c then some [] else none
from_hex (c ∷ d ∷ s) = elim (is_blank c) [
  | true ↦ from_hex (d ∷ s)
  | false ↦ with_byte (digit_value c) (digit_value d) (from_hex s)
]

-- The first block of the handler; `none` is one of its errors, all with status 400.
hex_bytes : Option Text → Option (List ℕ)
hex_bytes (some (c ∷ s)) = from_hex (drop_blanks (c ∷ s))
hex_bytes _ = none

pub bytes_of : Env → SendBody → Option Text → Option (List ℕ)
bytes_of env body (some (c ∷ template)) =
    encode env.py (c ∷ template)
      (some (record blank {
        message_identifier = body.message_identifier;
        serial_number = body.serial_number;
      }))
      no_kwargs
bytes_of env body _ = hex_bytes body.hex

-- What the second block does: it ends, or it raises in some world.
pub data Attempt : Type 0 where
  went : World → Attempt
  failed : Reply → World → Attempt

pub put_out : ℕ → List ℕ → World → World
put_out socket raw w = record w { wire = w.wire ++ (socket, raw) ∷ [] }

on_connection : Env → Client.SendResult → World → Attempt
unfolding put_out
on_connection env (Client.sends socket raw) w =
    if env.send_fails socket raw then failed server_error w else went (put_out socket raw w)
on_connection env Client.key_error w = failed (http_error 409) w
on_connection env Client.runtime_error w = failed (http_error 409) w

all_peers : List (ℕ × Listener) → List Text
all_peers [] = []
all_peers ((port, entry) ∷ rest) = keys entry.peers ++ all_peers rest

to_peers : Env → List ℕ → List Text → World → Attempt
to_peers env raw [] w = went w
to_peers env raw (peer ∷ peers) w = elim (Server.send_to_peer peer raw env.server) [
  | Server.not_found ↦ to_peers env raw peers w
  | Server.sends conn bytes ↦ elim (env.send_fails conn bytes) [
    | true ↦ failed server_error w
    | false ↦ to_peers env raw peers (put_out conn bytes w)
  ]
]

pub send_out : Env → Option Text → List ℕ → World → Attempt
send_out env (some (c ∷ id)) raw w = on_connection env (Client.send (c ∷ id) raw env.client) w
send_out env _ raw w = to_peers env raw (all_peers env.server.listeners) w

pub sent_message : Env → Store → DecodedMessage → NewMessage
sent_message env s dm = record {
  session_id = some (get_session_id env.uuid s);
  timestamp = some env.now;
  direction = some (codes "outbound");
  transport = some (codes "sctp");
  local_port = none;
  peer_addr = none;
  protocol = some dm.protocol;
  pdu_type = dm.pdu_type;
  message_identifier = dm.message_identifier;
  serial_number = dm.serial_number;
  decoded = dm.decoded;
  raw_hex = some dm.raw_hex;
  raw_bytes_b64 = some dm.raw_bytes_b64;
  rule_id = none;
}

pub log_sent : Env → List ℕ → Attempt → Reply × World
log_sent env raw (failed reply w) = (reply, w)
log_sent env raw (went w) = (
  sent_bytes (length raw),
  record w {
    store = (save_message env.now (sent_message env w.store (decode env.py raw)) w.store).1;
  },
)

pub with_bytes : Env → SendBody → Option (List ℕ) → World → Reply × World
with_bytes env body none w = (http_error 400, w)
with_bytes env body (some raw) w = log_sent env raw (send_out env body.connection_id raw w)

-- send_bytes
unfoldable pub send_bytes : Env → SendBody → World → Reply × World
unfolding bytes_of hex_bytes with_bytes send_out on_connection to_peers all_peers log_sent
    sent_message
send_bytes env body w = with_bytes env body (bytes_of env body body.template) w
