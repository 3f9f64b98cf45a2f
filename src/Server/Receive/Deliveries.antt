-- ===== src/Server/Receive/Deliveries.antt =====
-- What the receive loop of an accepted connection hands on.
use sctp_probe.Prelude.{
  ℕ, true, false, ◌≡◌, ◌≢◌, ◌⊎◌, refl, All, List, [], ◌∷◌, ◌++◌, Text, inl, inr, ap, ◌∙◌, Bool,
  ◌&&◌, ◌==◌, ==_iff, arith, Option, none, some, if◌then◌else◌, text_eq, text_eq_iff, Bool-cases,
}
use mathlib.Core.Option
use sctp_probe.Dict.{get, put, pop, get-put, get-pop}
use sctp_probe.Server.{SctpServer, Listener, port_eq, conn_ended, with_listener}
use sctp_probe.Server.Peers.{listener, peer_of, closed-with_listener}
use sctp_probe.Server.Receive.{
  Recv, bytes, timeout, other_exception, turn, receive_loop, handle_conn,
}

-- Bytes, or a timeout.
abbrev pub GoesOn : Recv → Type 0
GoesOn (bytes raw) = raw ≢ []
GoesOn timeout = Unit
GoesOn other_exception = ⊥

-- The peer has closed, or recv has failed.
abbrev pub Ends : Recv → Type 0
Ends r = (r ≡ bytes []) ⊎ (r ≡ other_exception)

-- What was received.
abbrev pub payloads : List Recv → List (List ℕ)
payloads [] = []
payloads (bytes raw ∷ rs) = raw ∷ payloads rs
payloads (_ ∷ rs) = payloads rs

receive_loop-open : (rs : List Recv) → All GoesOn rs → receive_loop rs ≡ (payloads rs, false)
unfolding receive_loop turn
receive_loop-open [] h = refl
receive_loop-open (timeout ∷ rs) h = receive_loop-open rs h.1
receive_loop-open (other_exception ∷ rs) h = absurd h.0
receive_loop-open (bytes [] ∷ rs) h = absurd (h.0 refl)
receive_loop-open (bytes (b ∷ raw) ∷ rs) h =
    ap (λ e. ((b ∷ raw) ∷ e.0, e.1)) (receive_loop-open rs h.1)

receive_loop-ended :
    (rs : List Recv) (r : Recv) (more : List Recv)
    → All GoesOn rs
    → Ends r
    → receive_loop (rs ++ r ∷ more) ≡ (payloads rs, true)
unfolding receive_loop turn
receive_loop-ended [] (bytes []) more h e = refl
receive_loop-ended [] other_exception more h e = refl
receive_loop-ended [] (bytes (b ∷ raw)) more h (inl e) = absurd (cc e)
receive_loop-ended [] (bytes (b ∷ raw)) more h (inr e) = absurd (cc e)
receive_loop-ended [] timeout more h (inl e) = absurd (cc e)
receive_loop-ended [] timeout more h (inr e) = absurd (cc e)
receive_loop-ended (timeout ∷ rs) r more h e = receive_loop-ended rs r more h.1 e
receive_loop-ended (other_exception ∷ rs) r more h e = absurd h.0
receive_loop-ended (bytes [] ∷ rs) r more h e = absurd (h.0 refl)
receive_loop-ended (bytes (b ∷ raw) ∷ rs) r more h e =
    ap (λ x. ((b ∷ raw) ∷ x.0, x.1)) (receive_loop-ended rs r more h.1 e)

-- The connection is closed, its peer is gone from the listener on the port, and any other peer of any
-- listener has the connection that it had.
pub record Dropped (port : ℕ) (peer_addr : Text) (conn : ℕ) (s s' : SctpServer) : Type 0 where
  pub is_closed : s'.closed ≡ s.closed ++ conn ∷ []
  pub peers :
      (k : ℕ) (j : Text)
      → peer_of (listener k s') j
        ≡ (if k == port && text_eq peer_addr j then none else peer_of (listener k s) j)

abbrev without : Text → Listener → Listener
without peer_addr e = record e { peers = pop text_eq peer_addr e.peers }

listener-pop :
    (port k : ℕ) (peer_addr : Text) (s : SctpServer)
    → listener k (with_listener (without peer_addr) port s)
      ≡ (if k == port then Option.map (without peer_addr) (listener k s) else listener k s)
unfolding with_listener
listener-pop port k peer_addr s = at (get port_eq port s.listeners) refl
  where
    at :
        (o : Option Listener)
        → get port_eq port s.listeners ≡ o
        → listener k (elim o [
          | none ↦ s
          | some entry ↦ record s {
            listeners = put port_eq port (without peer_addr entry) s.listeners;
          }
        ])
          ≡ (if k == port then Option.map (without peer_addr) (listener k s) else listener k s)
    at none there = elim (Bool-cases (k == port)) [
      | inl e ↦ let same : k ≡ port = ground arith in rw (e, same, there) refl
      | inr e ↦ rw e refl
    ]
    at (some entry) there =
        get-put port_eq ==_iff port k (without peer_addr entry) s.listeners
        ∙ elim (Bool-cases (k == port)) [
          | inl e ↦ let same : k ≡ port = ground arith in rw (e, same, there) (ground arith)
          | inr e ↦ let other : port_eq port k ≡ false = ground arith in rw (e, other) refl
        ]

conn_ended-Dropped :
    (port : ℕ) (peer_addr : Text) (conn : ℕ) (s : SctpServer)
    → Dropped port peer_addr conn s (conn_ended port peer_addr conn s)
unfolding conn_ended peer_of
conn_ended-Dropped port peer_addr conn s = record {
  is_closed = ap (λ l. l ++ conn ∷ []) (closed-with_listener _ port s);
  peers = λ k j.
      ap (λ o. peer_of o j) (listener-pop port k peer_addr s) ∙ at k j (k == port) (listener k s);
}
  where
    at :
        (k : ℕ) (j : Text) (here : Bool) (o : Option Listener)
        → peer_of (if here then Option.map (without peer_addr) o else o) j
          ≡ (if here && text_eq peer_addr j then none else peer_of o j)
    at k j false o = refl
    at k j true none = ground arith
    at k j true (some e) = get-pop text_eq text_eq_iff peer_addr j e.peers

-- As long as recv gives bytes or times out, all the bytes are handed on, in the pieces and in the order
-- in which they came, and the server stays as it is. After the end of the stream or a failure of recv
-- nothing more is handed on, the connection is closed, and its peer is gone from the listener, which
-- keeps all others.
pub handle_conn_lem :
    (port : ℕ) (peer_addr : Text) (conn : ℕ) (rs : List Recv) (r : Recv) (more : List Recv)
    (s : SctpServer)
    → All GoesOn rs
    → Ends r
    → (handle_conn port peer_addr conn rs s ≡ (payloads rs, s))
      × ((handle_conn port peer_addr conn (rs ++ r ∷ more) s).0 ≡ payloads rs)
      × Dropped port peer_addr conn s (handle_conn port peer_addr conn (rs ++ r ∷ more) s).1
unfolding handle_conn
handle_conn_lem port peer_addr conn rs r more s h e = (
  rw (receive_loop-open rs h) refl,
  rw (receive_loop-ended rs r more h e) refl,
  rw (receive_loop-ended rs r more h e) (conn_ended-Dropped port peer_addr conn s),
)
