-- ===== src/Server/Accepting/Deliveries.antt =====
-- What the accept loop of a listener does with the peers that come.
use sctp_probe.Prelude.{
  ℕ, suc, ◌≡◌, refl, Bool, true, false, List, [], ◌∷◌, ◌++◌, Option, some, Text, text_eq,
  text_eq_iff, if◌then◌else◌, map, arith, ap, ◌∙◌,
}
use sctp_probe.Dict.{get, put, get-put}
use sctp_probe.Server.{SctpServer, Listener, accept}
use sctp_probe.Server.Peers.{listener, peer_of, listener-with_listener, closed-with_listener}
use sctp_probe.Server.Accepting.{
  Accepted, connection, cancelled, other_exception, Effect, calls_on_event, handles_conn, sleeps,
  Turn, addr_of, accepted, after_exception, accept_turn, accept_turns, accept_loop,
}

-- The connections and addresses of the peers that were accepted before the loop was cancelled.
abbrev pub peers_before : List Accepted → List (ℕ × Text)
peers_before [] = []
peers_before (connection conn host port true ∷ rs) = peers_before rs
peers_before (connection conn host port false ∷ rs) = (conn, addr_of host port) ∷ peers_before rs
peers_before (cancelled ∷ rs) = []
peers_before (other_exception ∷ rs) = peers_before rs

-- The accepts that failed before that.
abbrev pub failures_before : List Accepted → ℕ
failures_before [] = 0
failures_before (connection conn host port true ∷ rs) = suc (failures_before rs)
failures_before (connection conn host port false ∷ rs) = failures_before rs
failures_before (cancelled ∷ rs) = 0
failures_before (other_exception ∷ rs) = suc (failures_before rs)

abbrev pub is_uncancelled : List Accepted → Bool
is_uncancelled [] = true
is_uncancelled (cancelled ∷ rs) = false
is_uncancelled (_ ∷ rs) = is_uncancelled rs

-- The connections that got a task, the peers that were announced, and the sleeps, of a run.
abbrev pub handled : List Effect → List (ℕ × Text)
handled [] = []
handled (handles_conn conn peer port ∷ es) = (conn, peer) ∷ handled es
handled (_ ∷ es) = handled es

abbrev pub announced : List Effect → List Text
announced [] = []
announced (calls_on_event peer port ∷ es) = peer ∷ announced es
announced (_ ∷ es) = announced es

abbrev pub slept : List Effect → ℕ
slept [] = 0
slept (sleeps ∷ es) = suc (slept es)
slept (_ ∷ es) = slept es

-- The last connection that came from an address.
abbrev pub last_from : Text → List (ℕ × Text) → Option ℕ → Option ℕ
last_from j [] old = old
last_from j ((conn, peer) ∷ rest) old = last_from j rest (if text_eq peer j then some conn else old)

-- What a run has done, with the peers that came and the failures.
pub record IsServed (has_on_event : Bool) (port : ℕ) (came : List (ℕ × Text)) (failed : ℕ)
    (e : Listener) (s : SctpServer) (t : Turn) : Type 0 where
  pub tasks : handled t.effects ≡ came
  pub events : announced t.effects ≡ (if has_on_event then map (λ c. c.1) came else [])
  pub waits : slept t.effects ≡ failed
  pub peers :
      (j : Text) → peer_of (listener port t.server) j ≡ last_from j came (get text_eq j e.peers)
  pub none_closed : t.server.closed ≡ s.closed

closed-accept :
    (port : ℕ) (peer : Text) (conn : ℕ) (s : SctpServer)
    → (accept port peer conn s).closed ≡ s.closed
unfolding accept
closed-accept port peer conn s = closed-with_listener _ port s

listener-accept :
    (port : ℕ) (peer : Text) (conn : ℕ) (e : Listener) (s : SctpServer)
    → listener port s ≡ some e
    → listener port (accept port peer conn s)
      ≡ some (record e { peers = put text_eq peer conn e.peers })
unfolding accept
listener-accept port peer conn e s there = listener-with_listener _ port e s there

module _ (port : ℕ) (conn : ℕ) (peer : Text) (came : List (ℕ × Text)) (failed : ℕ) (e : Listener)
    (s : SctpServer) (rest : Turn) where
  came_before :
      (j : Text)
      → last_from j came (get text_eq j (put text_eq peer conn e.peers))
        ≡ last_from j ((conn, peer) ∷ came) (get text_eq j e.peers)
  came_before j = ap (last_from j came) (get-put text_eq text_eq_iff peer j conn e.peers)

  accepted-IsServed :
      (has_on_event : Bool)
      → IsServed has_on_event port came failed
          (record e { peers = put text_eq peer conn e.peers })
          (accept port peer conn s)
          rest
      → IsServed has_on_event port ((conn, peer) ∷ came) failed e s (record rest {
        effects = (accepted has_on_event port conn peer s).effects ++ rest.effects;
      })
  unfolding accepted
  accepted-IsServed true v = record {
    tasks = ap (λ l. (conn, peer) ∷ l) v.tasks;
    events = ap (λ l. peer ∷ l) v.events;
    waits = v.waits;
    peers = λ j. v.peers j ∙ came_before j;
    none_closed = v.none_closed ∙ closed-accept port peer conn s;
  }
  accepted-IsServed false v = record {
    tasks = ap (λ l. (conn, peer) ∷ l) v.tasks;
    events = v.events;
    waits = v.waits;
    peers = λ j. v.peers j ∙ came_before j;
    none_closed = v.none_closed ∙ closed-accept port peer conn s;
  }

module _ (has_on_event : Bool) (port : ℕ) where
  nothing-IsServed :
      (goes_on : Bool) (e : Listener) (s : SctpServer)
      → listener port s ≡ some e
      → IsServed has_on_event port [] 0 e s (record { server = s; effects = []; goes_on = goes_on })
  unfolding peer_of
  nothing-IsServed goes_on e s there = record {
    tasks = refl;
    events = ground arith;
    waits = refl;
    peers = λ j. rw there refl;
    none_closed = refl;
  }

  failed-IsServed :
      (came : List (ℕ × Text)) (failed : ℕ) (e : Listener) (s : SctpServer) (rest : Turn)
      → IsServed has_on_event port came failed e s rest
      → IsServed has_on_event port came
          (suc failed)
          e
          s
          (record rest { effects = sleeps ∷ rest.effects })
  failed-IsServed came failed e s rest v = record {
    tasks = v.tasks;
    events = v.events;
    waits = ap suc v.waits;
    peers = v.peers;
    none_closed = v.none_closed;
  }

  accept_turns-IsServed :
      (rs : List Accepted) (e : Listener) (s : SctpServer)
      → listener port s ≡ some e
      → let t = accept_turns has_on_event port rs s in
        IsServed has_on_event port (peers_before rs) (failures_before rs) e s t
        × (t.goes_on ≡ is_uncancelled rs)
  unfolding accept_turns accept_turn after_exception accepted
  accept_turns-IsServed [] e s there = (nothing-IsServed true e s there, refl)
  accept_turns-IsServed (cancelled ∷ rs) e s there = (nothing-IsServed false e s there, refl)
  accept_turns-IsServed (other_exception ∷ rs) e s there =
      let (v, on) = accept_turns-IsServed rs e s there in
      (failed-IsServed _ _ e s (accept_turns has_on_event port rs s) v, on)
  accept_turns-IsServed (connection conn host p true ∷ rs) e s there =
      let (v, on) = accept_turns-IsServed rs e s there in
      (failed-IsServed _ _ e s (accept_turns has_on_event port rs s) v, on)
  accept_turns-IsServed (connection conn host p false ∷ rs) e s there =
      let peer = addr_of host p in
      let s' = accept port peer conn s in
      let e' = record e { peers = put text_eq peer conn e.peers } in
      let (v, on) = accept_turns-IsServed rs e' s' (listener-accept port peer conn e s there) in
      let rest = accept_turns has_on_event port rs s' in
      (
        accepted-IsServed port conn peer (peers_before rs) (failures_before rs) e s rest
            has_on_event v,
        on,
      )

-- The accept loop of a port with a listener serves every peer that comes before its task is cancelled,
-- whatever accepts fail in between. Each gets one task for its connection, in the order in which they
-- came, and one `assoc_up` event if there is a callback. An address then has its last connection, and
-- one that did not come has the connection that it had. Each failure makes one sleep, nothing is
-- closed, and only the cancellation ends the loop.
pub accept_loop-IsServed :
    (has_on_event : Bool) (port : ℕ) (rs : List Accepted) (e : Listener) (s : SctpServer)
    → listener port s ≡ some e
    → let t = accept_loop has_on_event port rs s in
      IsServed has_on_event port (peers_before rs) (failures_before rs) e s t
      × (t.goes_on ≡ is_uncancelled rs)
unfolding accept_loop
accept_loop-IsServed has_on_event port rs e s there =
    rw there (accept_turns-IsServed has_on_event port rs e s there)
