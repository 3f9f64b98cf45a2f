-- ===== src/Server/Life/Keeps.antt =====
-- Starts, stops and accepts keep the connections of peers apart and open.
use sctp_probe.Prelude.{
  ℕ, ==_iff, ◌≡◌, ◌≢◌, refl, Bool, true, false, All, All-append, is_some, List, [], ◌∷◌, Option,
  none, some, Text, text_eq, text_eq_iff, arith, subst, inl, inr, Bool-cases, if◌then◌else◌,
}
use sctp_probe.Dict.{get, put, values, get-put, get-pop}
use sctp_probe.Server.{SctpServer, Listener, port_eq, start, stop, accept, with_listener, closed_by}
use sctp_probe.Dict.Entries.{AllEntries, AllEntries-weaken, AllEntries-put}
use sctp_probe.Server.Peers.{listener}
use sctp_probe.Server.Life.{starts, accepts, after_start, IsOpen, Fits, IsSound}

other_port :
    (owner : ℕ → Option (ℕ × Text)) (s : SctpServer) (conn port j : ℕ) (peer : Text)
    → owner conn ≡ some (j, peer)
    → port_eq port j ≡ false
    → (d : List (Text × ℕ)) → AllEntries (λ q c. (owner c ≡ some (port, q)) × IsOpen c s) d
    → All (λ c. c ≢ conn) (values d)
other_port owner s conn port j peer mine other [] h = tt
other_port owner s conn port j peer mine other ((q, c) ∷ d) h = (
  λ e. let same : port ≡ j = cc (mine, e, h.0.0) in ground (arith, other, same),
  other_port owner s conn port j peer mine other d h.1,
)

stop-IsOpen :
    (owner : ℕ → Option (ℕ × Text)) (s : SctpServer) (conn port j : ℕ) (peer : Text)
    → IsSound owner s
    → owner conn ≡ some (j, peer)
    → port_eq port j ≡ false
    → IsOpen conn s
    → IsOpen conn (stop port s)
unfolding stop
stop-IsOpen owner s conn port j peer v mine other still =
    All-append (λ c. c ≢ conn) s.closed (closed_by (listener port s)) still
      (at (listener port s) refl)
  where
    at : (o : Option Listener) → listener port s ≡ o → All (λ c. c ≢ conn) (closed_by o)
    at none there = tt
    at (some e) there =
        let (sock, peers) = v port e there in
        (
          (λ same. absurd (cc (same, sock, mine))),
          other_port owner s conn port j peer mine other e.peers peers,
        )

pub stop-IsSound :
    (owner : ℕ → Option (ℕ × Text)) (s : SctpServer) (port : ℕ)
    → IsSound owner s
    → IsSound owner (stop port s)
stop-IsSound owner s port v j e found =
    let gone : listener j (stop port s) ≡ (if port_eq port j then none else listener j s) =
      unfold stop in get-pop port_eq ==_iff port j s.listeners in
    elim (Bool-cases (port_eq port j)) [
      | inl same ↦ absurd (cc (same, gone, found))
      | inr other ↦
          let (sock, peers) = v j e (ground (arith, gone, other, found)) in
          (
            sock,
            AllEntries-weaken _ _
                (λ peer conn h. (h.0, stop-IsOpen owner s conn port j peer v h.0 other h.1)) e.peers
                peers,
          )
    ]

put-IsSound :
    (owner : ℕ → Option (ℕ × Text)) (s : SctpServer) (port : ℕ) (new : Listener)
    → owner new.socket ≡ none
    → AllEntries (λ peer conn. (owner conn ≡ some (port, peer)) × IsOpen conn s) new.peers
    → IsSound owner s
    → IsSound owner (record s { listeners = put port_eq port new s.listeners })
put-IsSound owner s port new sock peers v j e found =
    let at = get-put port_eq ==_iff port j new s.listeners in
    elim (Bool-cases (port_eq port j)) [
      | inl same ↦
          let here : new ≡ e = ground (arith, at, same, found) in
          let place : port ≡ j = (==_iff port j).0 same in
          subst
            (λ i.
              (owner e.socket ≡ none)
              × AllEntries (λ peer conn. (owner conn ≡ some (i, peer)) × IsOpen conn s) e.peers)
            place
            (subst
              (λ (x : Listener).
                (owner x.socket ≡ none)
                × AllEntries (λ peer conn. (owner conn ≡ some (port, peer)) × IsOpen conn s)
                    x.peers)
              here (sock, peers))
      | inr other ↦ v j e (ground (arith, at, other, found))
    ]

pub start-IsSound :
    (owner : ℕ → Option (ℕ × Text)) (s : SctpServer) (available : Bool) (created : Option ℕ)
    (port ppid : ℕ) (host : Text)
    → Fits owner s (starts available created port ppid host)
    → IsSound owner s
    → IsSound owner (after_start (start available created port ppid host s) s)
unfolding start after_start
start-IsSound owner s false created port ppid host h v = v
start-IsSound owner s true none port ppid host h v =
    elim (Bool-cases (is_some (get port_eq port s.listeners))) [
      | inl taken ↦ rw taken v
      | inr free ↦ rw free v
    ]
start-IsSound owner s true (some sock) port ppid host h v =
    elim (Bool-cases (is_some (get port_eq port s.listeners))) [
      | inl taken ↦ rw taken v
      | inr free ↦ rw free (
          put-IsSound owner s port
            (record { socket = sock; ppid = ppid; bind_host = host; peers = [] }) h tt v)
    ]

pub accept-IsSound :
    (owner : ℕ → Option (ℕ × Text)) (s : SctpServer) (port : ℕ) (peer : Text) (conn : ℕ)
    → Fits owner s (accepts port peer conn)
    → IsSound owner s
    → IsSound owner (accept port peer conn s)
unfolding accept with_listener
accept-IsSound owner s port peer conn h v = at (listener port s) refl
  where
    at :
        (o : Option Listener)
        → listener port s ≡ o
        → IsSound owner (elim o [
          | none ↦ s
          | some entry ↦ record s {
            listeners =
                put port_eq port
                  (record entry { peers = put text_eq peer conn entry.peers })
                  s.listeners;
          }
        ])
    at none there = v
    at (some e) there =
        let (sock, peers) = v port e there in
        put-IsSound owner s port (record e { peers = put text_eq peer conn e.peers }) sock
          (AllEntries-put text_eq text_eq_iff _ peer conn e.peers h peers) v
