-- ===== src/Client.antt =====
-- sctp_probe/sctp_client.py: the outgoing associations. A socket is a number; what the network does
-- is an argument. `connect` and `disconnect` are taken as run by one task from end to end.
pub mod Connections
pub mod Names
pub mod Loops
pub mod Life
pub mod Shutdown
use sctp_probe.Prelude.{
  ℕ, suc, Bool, true, false, ◌&&◌, ◌||◌, List, [], ◌∷◌, ◌++◌, Option, none, some, Text, codes,
  text_eq, if◌then◌else◌, map, pos,
}
use sctp_probe.Dict.{get, put, pop, keys}
use sctp_probe.Numeral.{decimal}

pub data State : Type 0 where
  connected : State
  error : State

pub record Conn : Type 0 where
  pub socket : ℕ
  pub host : Text
  pub port : ℕ
  pub ppid : ℕ
  pub state : State

-- `counter` is the next number of `_CONN_ID_COUNTER`.
pub record SctpClient : Type 0 where
  pub conns : List (Text × Conn)
  pub counter : ℕ
  pub closed : List ℕ

abbrev pub no_conns : SctpClient
no_conns = record { conns = []; counter = 1; closed = [] }

pub data ConnectError : Type 0 where
  unavailable : ConnectError
  os_error : ConnectError

pub data ConnectResult : Type 0 where
  opened : Text → ConnectResult
  refused : ConnectError → ConnectResult

unfoldable pub conn_id : ℕ → Text
conn_id n = codes "conn-" ++ decimal (pos n)

opened_by : Option ℕ → Text → Text → ℕ → ℕ → SctpClient → ConnectResult × SctpClient
opened_by none id host port ppid c = (refused os_error, c)
opened_by (some sock) id host port ppid c = (
  opened id,
  record c {
    conns =
        put text_eq id
          (record { socket = sock; host = host; port = port; ppid = ppid; state = connected })
          c.conns;
  },
)

-- `created` is the socket of `_create_conn`, or `none` where it raises; the number is spent all the
-- same.
unfoldable pub connect : Bool → Option ℕ → Text → ℕ → ℕ → SctpClient → ConnectResult × SctpClient
unfolding opened_by
connect available created host port ppid c =
    if available
    then opened_by created (conn_id c.counter) host port ppid (record c { counter = suc c.counter })
    else (refused unavailable, c)

closed_by : Option Conn → List ℕ
closed_by none = []
closed_by (some entry) = entry.socket ∷ []

unfoldable pub disconnect : Text → SctpClient → SctpClient
unfolding closed_by
disconnect id c = record c {
  conns = pop text_eq id c.conns;
  closed = c.closed ++ closed_by (get text_eq id c.conns);
}

disconnect_each : List Text → SctpClient → SctpClient
disconnect_each [] c = c
disconnect_each (id ∷ ids) c = disconnect_each ids (disconnect id c)

unfoldable pub disconnect_all : SctpClient → SctpClient
unfolding disconnect_each
disconnect_all c = disconnect_each (keys c.conns) c

pub data SendResult : Type 0 where
  sends : ℕ → List ℕ → SendResult
  key_error : SendResult
  runtime_error : SendResult

pub send_on : Option Conn → List ℕ → SendResult
send_on none raw = key_error
send_on (some entry) raw = elim entry.state [
  | connected ↦ sends entry.socket raw
  | error ↦ runtime_error
]

unfoldable pub send : Text → List ℕ → SctpClient → SendResult
unfolding send_on
send id raw c = send_on (get text_eq id c.conns) raw

pub record ConnStatus : Type 0 where
  pub id : Text
  pub host : Text
  pub port : ℕ
  pub state : State

unfoldable pub status : SctpClient → List ConnStatus
status c =
    map (λ e. record { id = e.0; host = e.1.host; port = e.1.port; state = e.1.state }) c.conns

mark : Option Conn → Text → SctpClient → SctpClient
mark none id c = c
mark (some entry) id c = record c {
  conns = put text_eq id (record entry { state = error }) c.conns;
}

-- `if conn_id in self._conns: self._conns[conn_id]["state"] = "ERROR"`
unfoldable pub mark_error : Text → SctpClient → SctpClient
unfolding mark
mark_error id c = mark (get text_eq id c.conns) id c
