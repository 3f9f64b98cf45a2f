-- ===== src/Tests/Network.antt =====
-- Listeners, associations and subscribers: sctp_probe/sctp_server.py, sctp_client.py and ws.py
use sctp_probe.Prelude.{
  Option, ℕ, ◌≡◌, refl, true, not, List, [], ◌∷◌, none, some, Text, codes, text_eq, text_eq_refl,
  if◌then◌else◌, filter, ◌==◌, ◌≢◌, ◌++◌, inl, arith, false,
}
use sctp_probe.Dict.{get, put, pop}
use sctp_probe.Server.{SctpServer, Listener, accept, conn_ended}
use sctp_probe.Server.Peers.{listener, peer_of, stale_end_drops_peer}
use sctp_probe.Client
use sctp_probe.Client.{SctpClient, Conn, connected, no_conns, conn_id, send, mark_error}
use sctp_probe.Client.Names.{conn_id-inj}
use sctp_probe.Ws.{broadcast, broadcast_lem}
use sctp_probe.Client.Loops.{read_loop, result, os_error, timeout}
use sctp_probe.Client.Loops.Deliveries.{read_loop_lem, sent_before, has_failed, from}
use sctp_probe.Client.Life
use sctp_probe.Client.Life.{Happening, connects, disconnects, beats, reads}
use sctp_probe.Client.Life.Remains.{Remains, run-Remains}
use sctp_probe.Server.Receive
use sctp_probe.Server.Receive.{Recv, bytes, handle_conn}
use sctp_probe.Server.Receive.Deliveries.{Dropped, handle_conn_lem}
use sctp_probe.Server
use sctp_probe.Server.{no_listeners, stop}
use sctp_probe.Server.Life as ServerLife
use sctp_probe.Server.Life.{IsOpen, starts, stops, accepts, ends, AllFit}
use sctp_probe.Server.Life.Sound.{run-IsOpen}

abbrev sbc_listener : Listener
sbc_listener = record {
  socket = 3;
  ppid = 24;
  bind_host = codes "127.0.0.1";
  peers = (codes "10.0.0.2:40000", 7) ∷ [];
}

abbrev listening : SctpServer
listening = record { listeners = (29168, sbc_listener) ∷ []; closed = [] }

sbc_there : listener 29168 listening ≡ some sbc_listener
unfolding get
sbc_there = refl

stale_end_drops_peer_example :
    let peer = codes "10.0.0.3:40001" in
    let s' = conn_ended 29168 peer 8 (accept 29168 peer 9 (accept 29168 peer 8 listening)) in
    (peer_of (listener 29168 s') peer ≡ none) × (s'.closed ≡ 8 ∷ [])
stale_end_drops_peer_example =
    stale_end_drops_peer 29168 (codes "10.0.0.3:40001") 8 9 sbc_listener listening sbc_there

abbrev association : Conn
association = record {
  socket = 5;
  host = codes "10.0.0.9";
  port = 29168;
  ppid = 24;
  state = connected;
}

abbrev associated : SctpClient
associated = record { conns = (codes "conn-1", association) ∷ []; counter = 2; closed = [] }

broadcast_lem_example :
    let live = filter (λ ws. not (ws == 2)) (1 ∷ 2 ∷ 3 ∷ []) in
    ((broadcast (λ ws. ws == 2) (1 ∷ 2 ∷ 3 ∷ [])).0 ≡ live)
    × ((broadcast (λ ws. ws == 2) (1 ∷ 2 ∷ 3 ∷ [])).1 ≡ live)
broadcast_lem_example = broadcast_lem (λ ws. ws == 2) (1 ∷ 2 ∷ 3 ∷ [])

first_there : get text_eq (codes "conn-1") associated.conns ≡ some association
unfolding get text_eq
first_there = refl

-- A notification and an empty message between two messages, and an error that nothing follows.
read_loop_lem_example :
    let (calls, c') =
      read_loop 2
        (codes "conn-1")
        (result 0 (7 ∷ [])
          ∷ timeout
          ∷ result 3 (8 ∷ [])
          ∷ result 0 []
          ∷ result 1 (9 ∷ [])
          ∷ os_error false
          ∷ result 0 (1 ∷ [])
          ∷ [])
        associated in
    (calls ≡ from association (7 ∷ []) ∷ from association (9 ∷ []) ∷ [])
    × ((j : Text)
        → get text_eq j c'.conns ≡ (
            if text_eq (codes "conn-1") j
            then some (record {
              socket = association.socket;
              host = association.host;
              port = association.port;
              ppid = association.ppid;
              state = Client.error;
            })
            else get text_eq j associated.conns))
    × (c'.counter ≡ associated.counter)
    × (c'.closed ≡ associated.closed)
unfolding sent_before has_failed
read_loop_lem_example =
    read_loop_lem 2 (codes "conn-1")
      (result 0 (7 ∷ [])
        ∷ timeout
        ∷ result 3 (8 ∷ [])
        ∷ result 0 []
        ∷ result 1 (9 ∷ [])
        ∷ os_error false
        ∷ result 0 (1 ∷ [])
        ∷ [])
      association associated first_there

abbrev opening : List Happening
opening = connects true (some 5) (codes "10.0.0.9") 29168 24 ∷ []

abbrev trouble : List Happening
trouble =
    connects true (some 6) (codes "10.0.0.8") 29168 24
    ∷ reads 2 (conn_id 1) (os_error false)
    ∷ disconnects (conn_id 2)
    ∷ beats false (conn_id 1)
    ∷ []

run-Remains_example :
    Remains association (Life.conn (conn_id 1) (Life.run (Life.run no_conns opening) trouble))
run-Remains_example =
    run-Remains opening trouble (conn_id 1) association opened (tt, (tt, (other, (tt, tt))))
  where
    opened : Life.conn (conn_id 1) (Life.run no_conns opening) ≡ some association
    opened = unfold Life.run Life.step Client.connect get put in rw (text_eq_refl (conn_id 1)) refl

    other : conn_id 2 ≢ conn_id 1
    other e = let same = conn_id-inj 2 1 e in omega arith

abbrev from_peer : List Recv
from_peer = bytes (1 ∷ 2 ∷ []) ∷ Receive.timeout ∷ bytes (3 ∷ []) ∷ []

handle_conn_lem_example :
    (handle_conn 29168 (codes "10.0.0.2:40000") 7 from_peer listening
      ≡ ((1 ∷ 2 ∷ []) ∷ (3 ∷ []) ∷ [], listening))
    × ((handle_conn 29168
          (codes "10.0.0.2:40000")
          7
          (from_peer ++ bytes [] ∷ bytes (4 ∷ []) ∷ [])
          listening).0
        ≡ (1 ∷ 2 ∷ []) ∷ (3 ∷ []) ∷ [])
    × Dropped 29168
        (codes "10.0.0.2:40000")
        7
        listening
        (handle_conn 29168
          (codes "10.0.0.2:40000")
          7
          (from_peer ++ bytes [] ∷ bytes (4 ∷ []) ∷ [])
          listening).1
handle_conn_lem_example =
    handle_conn_lem 29168 (codes "10.0.0.2:40000") 7 from_peer (bytes []) (bytes (4 ∷ []) ∷ [])
      listening ((λ e. absurd (cc e)), (tt, ((λ e. absurd (cc e)), tt))) (inl refl)

-- Socket 3 listens, 7 is the first peer's, and any other the second one's.
abbrev owner : ℕ → Option (ℕ × Text)
owner n =
    if n == 3
    then none
    else some (29168, if n == 7 then codes "10.0.0.2:40000" else codes "10.0.0.3:40001")

-- Two peers come, and one of them goes.
abbrev coming_and_going : List ServerLife.Happening
coming_and_going =
    starts true (some 3) 29168 24 (codes "127.0.0.1")
    ∷ accepts 29168 (codes "10.0.0.2:40000") 7
    ∷ accepts 29168 (codes "10.0.0.3:40001") 8
    ∷ ends 29168 (codes "10.0.0.2:40000") 7
    ∷ stops 29169
    ∷ []

abbrev one_left : Listener
one_left = record sbc_listener { peers = (codes "10.0.0.3:40001", 8) ∷ [] }

run-IsOpen_example :
    (owner 8 ≡ some (29168, codes "10.0.0.3:40001"))
    × IsOpen 8 (ServerLife.run no_listeners coming_and_going)
run-IsOpen_example =
    run-IsOpen owner coming_and_going 29168 one_left (codes "10.0.0.3:40001") 8 fit there
      (unfold get text_eq in refl)
  where
    fit : AllFit owner no_listeners coming_and_going
    fit =
        unfold ServerLife.step Server.start accept get put in
        (refl, ((refl, tt), ((refl, tt), (refl, (tt, tt)))))

    there : listener 29168 (ServerLife.run no_listeners coming_and_going) ≡ some one_left
    there =
        unfold ServerLife.run ServerLife.step Server.start accept conn_ended stop get put pop
          text_eq in
        refl
