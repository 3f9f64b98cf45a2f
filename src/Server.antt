-- ===== src/Server.antt =====
-- sctp_probe/sctp_server.py: the listeners and their peers. A socket is a number. What the network does
-- is an argument: the socket that a bind or an accept yields, and whether a send raises.
-- `start` and `stop` are taken as run by one task from end to end, the others as what a task does
-- between two of its waits. `closed` lists the sockets that `_close_socket` was called on.
pub mod Peers
pub mod Shutdown
pub mod Receive
pub mod Accepting
pub mod Life
use sctp_probe.Prelude.{
  ℕ, ◌==◌, Bool, true, false, List, [], ◌∷◌, ◌++◌, Option, none, some, Text, text_eq, if◌then◌else◌,
  map, or_default, is_some,
}
use mathlib.Core.Option
use sctp_probe.Dict.{get, put, pop, keys, values}

pub record Listener : Type 0 where
  pub socket : ℕ
  pub ppid : ℕ
  pub bind_host : Text
  pub peers : List (Text × ℕ)

pub record SctpServer : Type 0 where
  pub listeners : List (ℕ × Listener)
  pub closed : List ℕ

abbrev pub no_listeners : SctpServer
no_listeners = record { listeners = []; closed = [] }

abbrev pub port_eq : ℕ → ℕ → Bool
port_eq a b = a == b

pub data StartError : Type 0 where
  unavailable : StartError
  already_listening : StartError
  os_error : StartError

pub data StartResult : Type 0 where
  started : SctpServer → StartResult
  refused : StartError → StartResult

-- `created` is the socket of `_create_listener`, or `none` where bind or listen raises.
bound : Option ℕ → ℕ → ℕ → Text → SctpServer → StartResult
bound none port ppid bind_host s = refused os_error
bound (some sock) port ppid bind_host s = started (record s {
  listeners =
      put port_eq port (record { socket = sock; ppid = ppid; bind_host = bind_host; peers = [] })
        s.listeners;
})

unfoldable pub start : Bool → Option ℕ → ℕ → ℕ → Text → SctpServer → StartResult
unfolding bound
start available created port ppid bind_host s =
    if available
    then (if is_some (get port_eq port s.listeners)
        then refused already_listening
        else bound created port ppid bind_host s)
    else refused unavailable

closed_by : Option Listener → List ℕ
closed_by none = []
closed_by (some entry) = entry.socket ∷ values entry.peers

unfoldable pub stop : ℕ → SctpServer → SctpServer
unfolding closed_by
stop port s = record {
  listeners = pop port_eq port s.listeners;
  closed = s.closed ++ closed_by (get port_eq port s.listeners);
}

stop_each : List ℕ → SctpServer → SctpServer
stop_each [] s = s
stop_each (port ∷ ports) s = stop_each ports (stop port s)

unfoldable pub stop_all : SctpServer → SctpServer
unfolding stop_each
stop_all s = stop_each (keys s.listeners) s

pub record ListenerStatus : Type 0 where
  pub port : ℕ
  pub ppid : ℕ
  pub bind_host : Text
  pub peers : List Text

unfoldable pub status : SctpServer → List ListenerStatus
status s =
    map
      (λ e. record {
        port = e.0;
        ppid = e.1.ppid;
        bind_host = e.1.bind_host;
        peers = keys e.1.peers;
      })
      s.listeners

-- The connection of the first listener that has the peer.
unfoldable pub peer_conn : Text → List (ℕ × Listener) → Option ℕ
peer_conn peer_addr [] = none
peer_conn peer_addr ((port, entry) ∷ rest) =
    let later = peer_conn peer_addr rest in
    let here = get text_eq peer_addr entry.peers in if is_some here then here else later

-- A send: on which connection, which bytes. A peer that is not found only makes a log line.
pub data Sending : Type 0 where
  sends : ℕ → List ℕ → Sending
  not_found : Sending

unfoldable pub send_to_peer : Text → List ℕ → SctpServer → Sending
send_to_peer peer_addr raw s = elim (peer_conn peer_addr s.listeners) [
  | none ↦ not_found
  | some conn ↦ sends conn raw
]

pub with_listener : (Listener → Listener) → ℕ → SctpServer → SctpServer
with_listener f port s = elim (get port_eq port s.listeners) [
  | none ↦ s
  | some entry ↦ record s { listeners = put port_eq port (f entry) s.listeners }
]

-- A turn of `_accept_loop` of the listener on `port` that accepts `conn`.
unfoldable pub accept : ℕ → Text → ℕ → SctpServer → SctpServer
unfolding with_listener
accept port peer_addr conn =
    with_listener (λ e. record e { peers = put text_eq peer_addr conn e.peers }) port

-- The `finally` block of `_handle_conn`.
unfoldable pub conn_ended : ℕ → Text → ℕ → SctpServer → SctpServer
unfolding with_listener
conn_ended port peer_addr conn s =
    let s' = with_listener (λ e. record e { peers = pop text_eq peer_addr e.peers }) port s in
    record s' { closed = s'.closed ++ conn ∷ [] }
