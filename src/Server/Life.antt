-- ===== src/Server/Life.antt =====
-- Listeners and peers over any sequence of what can happen to a server.
pub mod Keeps
pub mod Sound
use sctp_probe.Prelude.{
  ℕ, ◌==◌, ==_iff, ◌≡◌, ◌≢◌, refl, Bool, true, false, All, All-append, is_some, List, [], ◌∷◌, ◌++◌,
  Option, none, some, Text, text_eq, text_eq_iff, arith, ap, ◌∙◌, sym, subst, inl, inr, Bool-cases,
  Option-cases, if◌then◌else◌,
}
use sctp_probe.Dict.{get, put, pop, values, get-put, get-pop}
use sctp_probe.Server.{
  SctpServer, Listener, StartResult, started, refused, port_eq, no_listeners, start, stop, accept,
  conn_ended, with_listener, closed_by,
}
use sctp_probe.Dict.Entries.{
  AllEntries, AllEntries-weaken, AllEntries-put, AllEntries-pop, AllEntries-get,
}
use sctp_probe.Server.Peers.{listener, peer_of, listener-with_listener, closed-with_listener}

-- A call of `start` with what the network makes of it, a call of `stop`, an accept on a port, and the
-- end of the task of a connection.
pub data Happening : Type 0 where
  starts : Bool → Option ℕ → ℕ → ℕ → Text → Happening
  stops : ℕ → Happening
  accepts : ℕ → Text → ℕ → Happening
  ends : ℕ → Text → ℕ → Happening

pub after_start : StartResult → SctpServer → SctpServer
after_start (started s') s = s'
after_start (refused e) s = s

unfoldable pub step : SctpServer → Happening → SctpServer
unfolding after_start
step s (starts available created port ppid host) =
    after_start (start available created port ppid host s) s
step s (stops port) = stop port s
step s (accepts port peer conn) = accept port peer conn s
step s (ends port peer conn) = conn_ended port peer conn s

unfoldable pub run : SctpServer → List Happening → SctpServer
run s [] = s
run s (h ∷ hs) = run (step s h) hs

abbrev pub IsOpen : ℕ → SctpServer → Type 0
IsOpen conn s = All (λ c. c ≢ conn) s.closed

-- What the network does: `owner` gives for a socket of a connection the port and the peer that it
-- was accepted for, and none for a listening socket, and an accept yields no socket that was closed.
abbrev pub Fits : (ℕ → Option (ℕ × Text)) → SctpServer → Happening → Type 0
Fits owner s (starts available (some sock) port ppid host) = owner sock ≡ none
Fits owner s (starts available none port ppid host) = Unit
Fits owner s (stops port) = Unit
Fits owner s (accepts port peer conn) = (owner conn ≡ some (port, peer)) × IsOpen conn s
Fits owner s (ends port peer conn) = owner conn ≡ some (port, peer)

abbrev pub AllFit : (ℕ → Option (ℕ × Text)) → SctpServer → List Happening → Type 0
AllFit owner s [] = Unit
AllFit owner s (h ∷ hs) = Fits owner s h × AllFit owner (step s h) hs

-- Each listener's socket is no connection's, and each peer of it has the connection that was accepted
-- for it on this port, which was not closed.
abbrev pub IsSound : (ℕ → Option (ℕ × Text)) → SctpServer → Type 0
IsSound owner s =
    (port : ℕ) (e : Listener)
    → listener port s ≡ some e
    → (owner e.socket ≡ none)
      × AllEntries (λ peer conn. (owner conn ≡ some (port, peer)) × IsOpen conn s) e.peers
