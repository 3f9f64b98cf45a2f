-- ===== src/Server/Peers.antt =====
-- Peers of a listener over their life: accepted, sent to, ended, stopped.
use sctp_probe.Prelude.{
  ℕ, ◌≡◌, true, [], ◌∷◌, ◌++◌, Option, none, some, Text, text_eq, text_eq_iff, text_eq_refl, ==_iff,
  arith, if◌then◌else◌, ap, ◌∙◌,
}
use sctp_probe.Dict.{get, put, pop, values, get-put, get-pop}
use sctp_probe.Server.{
  SctpServer, Listener, port_eq, start, started, refused, already_listening, stop, accept,
  conn_ended, with_listener, closed_by,
}

abbrev pub listener : ℕ → SctpServer → Option Listener
listener port s = get port_eq port s.listeners

-- The connection that the listener on `port` has for the peer.
unfoldable pub peer_of : Option Listener → Text → Option ℕ
peer_of none peer = none
peer_of (some e) peer = get text_eq peer e.peers

-- A start on a free port leaves a listener without peers there, on the socket that was bound, and no
-- other listener changes.
pub start_lem :
    (created port ppid : ℕ) (host : Text) (s : SctpServer)
    → listener port s ≡ none
    → (s' : SctpServer) × (start true (some created) port ppid host s ≡ started s')
      × ((j : ℕ)
          → listener j s' ≡ (
              if port_eq port j
              then some (record { socket = created; ppid = ppid; bind_host = host; peers = [] })
              else listener j s))
unfolding start
start_lem created port ppid host s free =
    let e : Listener = record { socket = created; ppid = ppid; bind_host = host; peers = [] } in
    (
      record s { listeners = put port_eq port e s.listeners },
      rw free,
      λ j. get-put port_eq ==_iff port j e s.listeners,
    )

-- On a port that is taken a start is refused, whatever the network would do.
start_taken :
    (created : Option ℕ) (port ppid : ℕ) (host : Text) (s : SctpServer) (e : Listener)
    → listener port s ≡ some e
    → start true created port ppid host s ≡ refused already_listening
unfolding start
start_taken created port ppid host s e taken = rw taken

-- Stopping a port that has a listener removes it and no other, and closes the listening socket and
-- the connection of every peer of it.
stop_lem :
    (port : ℕ) (e : Listener) (s : SctpServer)
    → listener port s ≡ some e
    → ((j : ℕ) → listener j (stop port s) ≡ (if port_eq port j then none else listener j s))
      × ((stop port s).closed ≡ s.closed ++ e.socket ∷ values e.peers)
unfolding stop
stop_lem port e s there =
    (λ j. get-pop port_eq ==_iff port j s.listeners, ap (λ o. s.closed ++ closed_by o) there)

pub listener-with_listener :
    (f : Listener → Listener) (port : ℕ) (e : Listener) (s : SctpServer)
    → listener port s ≡ some e
    → listener port (with_listener f port s) ≡ some (f e)
unfolding with_listener
listener-with_listener f port e s there =
    rw (there, with_listener) (get-put port_eq ==_iff port port (f e) s.listeners ∙ ground arith)

pub closed-with_listener :
    (f : Listener → Listener) (port : ℕ) (s : SctpServer)
    → (with_listener f port s).closed ≡ s.closed
unfolding with_listener
closed-with_listener f port s = ground arith

-- A peer that a listener accepts is found under its address there, and the other peers stay as they
-- are.
pub accept_lem :
    (port : ℕ) (peer : Text) (conn : ℕ) (e : Listener) (s : SctpServer)
    → listener port s ≡ some e
    → (j : Text)
    → peer_of (listener port (accept port peer conn s)) j
      ≡ (if text_eq peer j then some conn else get text_eq j e.peers)
unfolding accept peer_of
accept_lem port peer conn e s there j =
    ap (λ o. peer_of o j) (listener-with_listener _ port e s there)
    ∙ get-put text_eq text_eq_iff peer j conn e.peers

-- A peer that comes back from the same address before the task of its old connection has ended is
-- forgotten by its listener when that task ends, and only the old connection is closed.
pub stale_end_drops_peer :
    (port : ℕ) (peer : Text) (old new : ℕ) (e : Listener) (s : SctpServer)
    → listener port s ≡ some e
    → let s' = conn_ended port peer old (accept port peer new (accept port peer old s)) in
      (peer_of (listener port s') peer ≡ none) × (s'.closed ≡ s.closed ++ old ∷ [])
unfolding conn_ended accept peer_of
stale_end_drops_peer port peer old new e s there =
    let first =
      listener-with_listener (λ e. record e { peers = put text_eq peer old e.peers }) port e s
        there in
    let second =
      listener-with_listener (λ e. record e { peers = put text_eq peer new e.peers }) port _ _
        first in
    let ended =
      listener-with_listener (λ e. record e { peers = pop text_eq peer e.peers }) port _ _ second in
    (
      ap (λ o. peer_of o peer) ended
          ∙ get-pop text_eq text_eq_iff peer peer _
          ∙ rw (text_eq_refl peer),
      ap (λ l. l ++ old ∷ [])
          (closed-with_listener _ port _
            ∙ closed-with_listener _ port _
            ∙ closed-with_listener _ port s),
    )
