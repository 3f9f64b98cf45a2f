-- ===== src/Main/App.antt =====
-- The application of sctp_probe/main.py: the singletons that its callbacks and its endpoints share.
pub mod Endpoints
pub mod Steps
pub mod Calls
pub mod Runs
pub mod Kept
pub mod Invariants
pub mod Refusals
pub mod Shutdown
pub mod Answers
use sctp_probe.Prelude.{ℕ, Bool, List, [], Option, none, some, Text, codes}
use sctp_probe.Store
use sctp_probe.Pycrate.{Pycrate}
use sctp_probe.Export.Capture.{Clock}
use sctp_probe.Server
use sctp_probe.Client
use sctp_probe.Server.{SctpServer, no_listeners}
use sctp_probe.Client.{SctpClient, no_conns}
use sctp_probe.Rules.{Env, World}

pub record App : Type 0 where
  pub world : World
  pub server : SctpServer
  pub client : SctpClient

-- What is outside of the program while it handles one thing. `created` is the socket that a bind or a
-- connect yields, or `none` where it raises.
pub record Outside : Type 0 where
  pub py : Pycrate
  pub clock : Clock
  pub send_fails : ℕ → List ℕ → Bool
  pub gone : ℕ → Bool
  pub now : Text
  pub uuid : Text
  pub sctp_available : Bool
  pub created : Option ℕ

unfoldable pub env_of : Outside → App → Env
env_of out app = record {
  py = out.py;
  server = app.server;
  client = app.client;
  send_fails = out.send_fails;
  gone = out.gone;
  now = out.now;
  uuid = out.uuid;
}

-- `lifespan` up to its yield, on a new database.
unfoldable pub started : Text → App
started uuid = record {
  world = record { store = Store.init_db uuid Store.no_tables; hub = []; wire = []; received = [] };
  server = no_listeners;
  client = no_conns;
}

-- `lifespan` from its yield on.
unfoldable pub shut_down : App → App
shut_down app = record app {
  server = Server.stop_all app.server;
  client = Client.disconnect_all app.client;
}
