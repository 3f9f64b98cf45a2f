-- ===== src/Server/Accepting.antt =====
-- _accept_loop of sctp_probe/sctp_server.py: the loop that accepts peers on a port. How each turn's
-- accept ends is an argument. The listener stays registered while the loop runs; `stop` cancels the
-- loop after it has removed the listener.
pub mod Deliveries
use sctp_probe.Prelude.{
  ℕ, Bool, true, false, List, [], ◌∷◌, ◌++◌, Option, none, some, Text, codes, if◌then◌else◌, pos,
  is_some,
}
use sctp_probe.Dict.{get}
use sctp_probe.Numeral.{decimal}
use sctp_probe.Server.{SctpServer, port_eq, accept}

-- A connection with the host and the port of its peer, where the flag says whether setting its
-- timeout raises; the task was cancelled; or the accept raised, by its timeout or otherwise.
pub data Accepted : Type 0 where
  connection : ℕ → Text → ℕ → Bool → Accepted
  cancelled : Accepted
  other_exception : Accepted

-- What a turn does besides: it makes a task for `on_event`, one for `_handle_conn`, or it sleeps.
pub data Effect : Type 0 where
  calls_on_event : Text → ℕ → Effect
  handles_conn : ℕ → Text → ℕ → Effect
  sleeps : Effect

pub record Turn : Type 0 where
  pub server : SctpServer
  pub effects : List Effect
  pub goes_on : Bool

-- f"{peer[0]}:{peer[1]}"
abbrev pub addr_of : Text → ℕ → Text
addr_of host port = host ++ (codes ":" ++ decimal (pos port))

unfoldable pub accepted : Bool → ℕ → ℕ → Text → SctpServer → Turn
accepted has_on_event port conn peer_addr s = record {
  server = accept port peer_addr conn s;
  effects =
      (if has_on_event then calls_on_event peer_addr port ∷ [] else [])
      ++ handles_conn conn peer_addr port ∷ [];
  goes_on = true;
}

-- The branch of `except Exception`.
unfoldable pub after_exception : SctpServer → Turn
after_exception s = record { server = s; effects = sleeps ∷ []; goes_on = true }

unfoldable pub accept_turn : Bool → ℕ → Accepted → SctpServer → Turn
accept_turn has_on_event port (connection conn host peer_port raises) s =
    if raises then after_exception s else accepted has_on_event port conn (addr_of host peer_port) s
accept_turn has_on_event port cancelled s = record { server = s; effects = []; goes_on = false }
accept_turn has_on_event port other_exception s = after_exception s

unfoldable pub accept_turns : Bool → ℕ → List Accepted → SctpServer → Turn
accept_turns has_on_event port [] s = record { server = s; effects = []; goes_on = true }
accept_turns has_on_event port (r ∷ rs) s =
    let first = accept_turn has_on_event port r s in
    elim first.goes_on [
      | false ↦ first
      | true ↦
          let rest = accept_turns has_on_event port rs first.server in
          record rest { effects = first.effects ++ rest.effects }
    ]

-- Without a listener on the port the loop ends at once.
unfoldable pub accept_loop : Bool → ℕ → List Accepted → SctpServer → Turn
accept_loop has_on_event port rs s =
    if is_some (get port_eq port s.listeners)
    then accept_turns has_on_event port rs s
    else record { server = s; effects = []; goes_on = false }
