-- ===== src/Client/Loops.antt =====
-- The read loop and the heartbeat loop of a connection in sctp_probe/sctp_client.py, a turn at a time.
-- What the network does in a turn is an argument. `flag` is pysctp's FLAG_NOTIFICATION.
pub mod Deliveries
use Prim.Native.Nat.{bit_and}
use sctp_probe.Prelude.{
  ℕ, ◌==◌, Bool, true, false, List, [], ◌∷◌, ◌++◌, Option, none, some, Text, codes, text_eq,
  if◌then◌else◌, pos, not, ◌||◌,
}
use sctp_probe.Dict.{get}
use sctp_probe.Numeral.{decimal}
use sctp_probe.Client.{SctpClient, Conn, mark_error}

-- How sctp_recv ends: its flags and its bytes, or an exception. An OSError says whether its errno is
-- EAGAIN or EWOULDBLOCK.
pub data Received : Type 0 where
  result : ℕ → List ℕ → Received
  cancelled : Received
  timeout : Received
  blocking : Received
  os_error : Bool → Received
  other_exception : Received

-- The arguments of a call of `on_message`.
pub record Inbound : Type 0 where
  pub raw : List ℕ
  pub peer_addr : Text
  pub local_port : ℕ

pub record Turn : Type 0 where
  pub client : SctpClient
  pub goes_on : Bool
  pub calls : List Inbound

-- entry2.get('host', '?') and entry2.get('port', 0)
host_of : Option Conn → Text
host_of none = codes "?"
host_of (some entry) = entry.host

port_of : Option Conn → ℕ
port_of none = 0
port_of (some entry) = entry.port

unfoldable pub inbound_of : Text → List ℕ → SctpClient → Inbound
unfolding host_of port_of
inbound_of conn_id raw c =
    let entry = get text_eq conn_id c.conns in
    record {
      raw = raw;
      peer_addr = host_of entry ++ (codes ":" ++ decimal (pos (port_of entry)));
      local_port = port_of entry;
    }

-- A notification, or no bytes.
unfoldable pub is_skipped : ℕ → ℕ → List ℕ → Bool
is_skipped flag flags [] = true
is_skipped flag flags (b ∷ raw) = not (bit_and flags flag == 0)

-- A turn from the moment when sctp_recv has ended.
unfoldable pub after_recv : ℕ → Text → Received → SctpClient → Turn
after_recv flag conn_id (result flags raw) c = record {
  client = c;
  goes_on = true;
  calls = if is_skipped flag flags raw then [] else inbound_of conn_id raw c ∷ [];
}
after_recv flag conn_id cancelled c = record { client = c; goes_on = false; calls = [] }
after_recv flag conn_id timeout c = record { client = c; goes_on = true; calls = [] }
after_recv flag conn_id blocking c = record { client = c; goes_on = true; calls = [] }
after_recv flag conn_id (os_error true) c = record { client = c; goes_on = true; calls = [] }
after_recv flag conn_id (os_error false) c = record {
  client = mark_error conn_id c;
  goes_on = false;
  calls = [];
}
after_recv flag conn_id other_exception c = record {
  client = mark_error conn_id c;
  goes_on = false;
  calls = [];
}

-- _read_loop, over what sctp_recv gives in its turns, while no other task touches the client: its calls
-- of `on_message`, in order, and the client. It also ends at the end of the list.
unfoldable pub read_loop : ℕ → Text → List Received → SctpClient → List Inbound × SctpClient
read_loop flag conn_id [] c = ([], c)
read_loop flag conn_id (r ∷ rs) c = elim (get text_eq conn_id c.conns) [
  | none ↦ ([], c)
  | some entry ↦
      let turn = after_recv flag conn_id r c in
      elim turn.goes_on [
        | false ↦ (turn.calls, turn.client)
        | true ↦ let rest = read_loop flag conn_id rs turn.client in (turn.calls ++ rest.0, rest.1)
      ]
]

-- A turn of _heartbeat_loop after its sleep: `raises` says whether the empty send raises. The result is
-- the client, and whether the loop goes on.
beat : Bool → Text → Option Conn → SctpClient → SctpClient × Bool
beat raises conn_id none c = (c, false)
beat raises conn_id (some entry) c = (if raises then mark_error conn_id c else c, true)

unfoldable pub heartbeat : Bool → Text → SctpClient → SctpClient × Bool
unfolding beat
heartbeat raises conn_id c = beat raises conn_id (get text_eq conn_id c.conns) c
