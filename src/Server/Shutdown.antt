-- ===== src/Server/Shutdown.antt =====
-- What `stop_all` leaves: the end of the program, and POST /api/server/stop without a port.
use sctp_probe.Prelude.{ℕ, ==_iff, ◌≡◌, refl, List, [], ◌∷◌, ◌++◌, none, some, subst}
use sctp_probe.Dict.{keys, values}
use sctp_probe.Dict.Drain.{Pool, IsDrained, remove_each, remove_all-IsDrained}
use sctp_probe.Server.{SctpServer, Listener, port_eq, stop, stop_each, stop_all, closed_by}
use sctp_probe.Server.Peers.{listener}

listeners_pool : Pool ℕ Listener SctpServer
unfolding stop
listeners_pool = record {
  eq = port_eq;
  eq_iff = ==_iff;
  entries = λ s. s.listeners;
  closed = λ s. s.closed;
  sockets = closed_by;
  remove = stop;
  entries_after = λ port s. refl;
  closed_after = λ port s. refl;
}

stop_each-remove_each :
    (ports : List ℕ) (s : SctpServer) → remove_each listeners_pool ports s ≡ stop_each ports s
unfolding stop_each remove_each listeners_pool
stop_each-remove_each [] s = refl
stop_each-remove_each (port ∷ ports) s = stop_each-remove_each ports (stop port s)

-- Nothing is on the port any more, and what was there is closed.
pub record IsShut (j : ℕ) (s s' : SctpServer) : Type 0 where
  pub gone : listener j s' ≡ none
  pub closed :
      (e : Listener)
      → listener j s ≡ some e
      → (before behind : List ℕ) × (s'.closed ≡ before ++ (e.socket ∷ values e.peers) ++ behind)

-- After `stop_all` there is no listener on any port, and each one that was there had its listening
-- socket and the connections of all its peers closed.
pub stop_all-IsShut : (s : SctpServer) (j : ℕ) → IsShut j s (stop_all s)
unfolding stop_all closed_by listeners_pool
stop_all-IsShut s j =
    let (gone, closed) =
      subst (IsDrained listeners_pool j s) (stop_each-remove_each (keys s.listeners) s)
        (remove_all-IsDrained listeners_pool s j) in
    record { gone = gone; closed = closed }
