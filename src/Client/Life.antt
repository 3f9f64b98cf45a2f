-- ===== src/Client/Life.antt =====
-- Associations over any sequence of what can happen to a client: calls of its methods, and turns of the
-- two loops of each connection, in any order.
pub mod Remains
use sctp_probe.Prelude.{
  ℕ, suc, ◌≤◌, ◌<◌, ◌≡◌, ◌≢◌, ◌⊎◌, All, refl, Bool, true, false, List, [], ◌∷◌, ◌++◌, Option, none,
  some, Text, text_eq, text_eq_iff, if◌then◌else◌, arith, ap, ◌∙◌, sym, inl, inr, Bool-cases,
  Option-cases,
}
use sctp_probe.Dict.{get, put, pop, keys, get-put, get-pop}
use sctp_probe.Client.{
  SctpClient, Conn, State, connected, error, no_conns, conn_id, connect, disconnect,
  disconnect_each, disconnect_all, mark_error, mark, opened_by,
}
use sctp_probe.Client.Names.{conn_id-inj}
use sctp_probe.Client.Loops.{
  Received, result, cancelled, timeout, blocking, os_error, other_exception, after_recv, heartbeat,
}

-- A call of `connect` with what the network makes of it, a call of `disconnect`, the end of a read, or
-- a heartbeat.
pub data Happening : Type 0 where
  connects : Bool → Option ℕ → Text → ℕ → ℕ → Happening
  disconnects : Text → Happening
  reads : ℕ → Text → Received → Happening
  beats : Bool → Text → Happening

unfoldable pub step : SctpClient → Happening → SctpClient
step c (connects available created host port ppid) = (connect available created host port ppid c).1
step c (disconnects id) = disconnect id c
step c (reads flag id r) = (after_recv flag id r c).client
step c (beats raises id) = (heartbeat raises id c).0

unfoldable pub run : SctpClient → List Happening → SctpClient
run c [] = c
run c (h ∷ hs) = run (step c h) hs

abbrev pub conn : Text → SctpClient → Option Conn
conn id c = get text_eq id c.conns

-- The names that are still to be given are not in use.
abbrev pub IsNumbered : SctpClient → Type 0
IsNumbered c = (k : ℕ) → c.counter ≤ k → conn (conn_id k) c ≡ none

mark_error-none :
    (failed id : Text) (c : SctpClient) → conn id c ≡ none → conn id (mark_error failed c) ≡ none
unfolding mark_error
mark_error-none failed id c gone = elim (Option-cases (conn failed c)) [
  | inl none_there ↦ ground arith
  | inr (e, there) ↦ ground (
    arith,
    get-put text_eq text_eq_iff failed id (record e { state = error }) c.conns,
    text_eq_iff failed id,
  )
]

-- What reads and heartbeats do to a connection is nothing, or mark_error on one connection.
pub turn-Marks :
    (flag : ℕ) (id : Text) (r : Received) (c : SctpClient)
    → ((after_recv flag id r c).client ≡ c) ⊎ ((after_recv flag id r c).client ≡ mark_error id c)
unfolding after_recv
turn-Marks flag id (result flags raw) c = inl refl
turn-Marks flag id cancelled c = inl refl
turn-Marks flag id timeout c = inl refl
turn-Marks flag id blocking c = inl refl
turn-Marks flag id (os_error true) c = inl refl
turn-Marks flag id (os_error false) c = inr refl
turn-Marks flag id other_exception c = inr refl

pub heartbeat-Marks :
    (raises : Bool) (id : Text) (c : SctpClient)
    → ((heartbeat raises id c).0 ≡ c) ⊎ ((heartbeat raises id c).0 ≡ mark_error id c)
unfolding heartbeat
heartbeat-Marks raises id c = ground arith

counter-mark_error : (id : Text) (c : SctpClient) → (mark_error id c).counter ≡ c.counter
unfolding mark_error
counter-mark_error id c = ground arith

Marks-IsNumbered :
    (id : Text) (c c' : SctpClient)
    → (c' ≡ c) ⊎ (c' ≡ mark_error id c)
    → IsNumbered c
    → IsNumbered c'
Marks-IsNumbered id c c' (inl e) v = rw e v
Marks-IsNumbered id c c' (inr e) v =
    rw e λ k h. mark_error-none id (conn_id k) c (v k (omega (arith, counter-mark_error id c)))

pub step-IsNumbered : (c : SctpClient) (h : Happening) → IsNumbered c → IsNumbered (step c h)
unfolding step connect disconnect
step-IsNumbered c (connects false created host port ppid) v = v
step-IsNumbered c (connects true none host port ppid) v = λ k h. v k (omega arith)
step-IsNumbered c (connects true (some socket) host port ppid) v = λ k h.
    let e : Conn = record {
      socket = socket;
      host = host;
      port = port;
      ppid = ppid;
      state = connected;
    } in
    ground (
      arith,
      get-put text_eq text_eq_iff (conn_id c.counter) (conn_id k) e c.conns,
      text_eq_iff (conn_id c.counter) (conn_id k),
      conn_id-inj c.counter k,
      v k,
    )
step-IsNumbered c (disconnects id) v =
    λ k h. ground (arith, get-pop text_eq text_eq_iff id (conn_id k) c.conns, v k)
step-IsNumbered c (reads flag id r) v = Marks-IsNumbered id c _ (turn-Marks flag id r c) v
step-IsNumbered c (beats raises id) v = Marks-IsNumbered id c _ (heartbeat-Marks raises id c) v

disconnect_each-IsNumbered :
    (ids : List Text) (c : SctpClient) → IsNumbered c → IsNumbered (disconnect_each ids c)
unfolding disconnect_each
disconnect_each-IsNumbered [] c v = v
disconnect_each-IsNumbered (id ∷ ids) c v =
    disconnect_each-IsNumbered ids (disconnect id c)
      (unfold step in step-IsNumbered c (disconnects id) v)

pub disconnect_all-IsNumbered : (c : SctpClient) → IsNumbered c → IsNumbered (disconnect_all c)
unfolding disconnect_all
disconnect_all-IsNumbered c v = disconnect_each-IsNumbered (keys c.conns) c v

run_after-IsNumbered : (c : SctpClient) (hs : List Happening) → IsNumbered c → IsNumbered (run c hs)
unfolding run
run_after-IsNumbered c [] v = v
run_after-IsNumbered c (h ∷ hs) v = run_after-IsNumbered (step c h) hs (step-IsNumbered c h v)

-- Whatever happens to a client, the name that `connect` gives next, and each one that it will give
-- after it, names no association: an association is never replaced by another.
pub run-IsNumbered : (hs : List Happening) → IsNumbered (run no_conns hs)
unfolding get
run-IsNumbered hs = run_after-IsNumbered no_conns hs (λ k h. refl)
