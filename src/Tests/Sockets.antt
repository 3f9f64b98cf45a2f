-- ===== src/Tests/Sockets.antt =====
-- Opening sockets and accepting peers: sctp_probe/sctp_server.py
use sctp_probe.Prelude.{◌≡◌, ◌⊎◌, refl, Bool, true, false, List, [], ◌∷◌, some, codes}
use sctp_probe.Dict.{get}
use sctp_probe.Server
use sctp_probe.Server.{SctpServer, Listener}
use sctp_probe.Server.Peers.{listener}
use sctp_probe.Sockets.{
  SocketCall, binds, create_listener, creates, sets_reuse_addr, sets_timeout, listens,
}
use sctp_probe.Sockets.Opening.{NoneRaises, IsCutShort, start-create_listener}
use sctp_probe.Server.Accepting
use sctp_probe.Server.Accepting.{Accepted, connection, accept_loop}
use sctp_probe.Server.Accepting.Deliveries.{IsServed, peers_before, accept_loop-IsServed}

-- Two peers come, one of them twice and once in vain, and the loop is cancelled.
abbrev comers : List Accepted
comers =
    connection 7 (codes "10.0.0.2") 40000 false
    ∷ Accepting.other_exception
    ∷ connection 8 (codes "10.0.0.3") 40000 true
    ∷ connection 9 (codes "10.0.0.2") 40000 false
    ∷ Accepting.cancelled
    ∷ connection 10 (codes "10.0.0.4") 40000 false
    ∷ []

abbrev idle_listener : Listener
idle_listener = record { socket = 3; ppid = 24; bind_host = codes "127.0.0.1"; peers = [] }

abbrev idle : SctpServer
idle = record { listeners = (29168, idle_listener) ∷ []; closed = [] }

accept_loop-IsServed_example :
    let t = accept_loop true 29168 comers idle in
    IsServed true 29168 (peers_before comers) 2 idle_listener idle t × (t.goes_on ≡ false)
accept_loop-IsServed_example =
    accept_loop-IsServed true 29168 comers idle_listener idle (unfold get in refl)

-- Binding raises, and nothing else does.
abbrev taken : SocketCall → Bool
taken (binds host port) = true
taken _ = false

start-create_listener_example :
    let (calls, created) = create_listener taken 4 29169 (codes "127.0.0.1") in
    let result = Server.start true created 29169 24 (codes "127.0.0.1") idle in
    (NoneRaises taken (
        creates
        ∷ sets_reuse_addr
        ∷ sets_timeout
        ∷ binds (codes "127.0.0.1") 29169
        ∷ listens 16
        ∷ [])
      × (calls
          ≡ creates
            ∷ sets_reuse_addr
            ∷ sets_timeout
            ∷ binds (codes "127.0.0.1") 29169
            ∷ listens 16
            ∷ [])
      × (s' : SctpServer) × (result ≡ Server.started s')
      × (listener 29169 s'
          ≡ some (record { socket = 4; ppid = 24; bind_host = codes "127.0.0.1"; peers = [] })))
    ⊎ (IsCutShort taken
          (creates
            ∷ sets_reuse_addr
            ∷ sets_timeout
            ∷ binds (codes "127.0.0.1") 29169
            ∷ listens 16
            ∷ [])
          calls
        × (result ≡ Server.refused Server.StartError.os_error))
start-create_listener_example =
    start-create_listener taken 4 29169 24 (codes "127.0.0.1") idle (unfold get in refl)
