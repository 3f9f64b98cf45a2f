-- ===== src/Main/App/Steps.antt =====
-- The application as a sequence of things that happen to it: each is handled to its end before the
-- next. (Main.Tasks has the tasks of messages, which overlap.)
use sctp_probe.Prelude.{ℕ, Bool, List, [], ◌∷◌, Text, codes}
use sctp_probe.Server
use sctp_probe.Server.Receive.{Recv, Turn, goes_on, calls, breaks, turn}
use sctp_probe.Client.Loops.{Inbound, Received, after_recv, heartbeat}
use sctp_probe.Rules.{World}
use sctp_probe.Main.{on_message, on_event}
use sctp_probe.Ws
use sctp_probe.Main.App.{App, Outside, env_of}
use sctp_probe.Main.App.Endpoints.{Request, handle}

-- A peer is accepted on a port; a recv on such a connection, a sctp_recv on an association and the
-- empty send of a heartbeat end; a request comes in; a WebSocket subscribes or is closed.
pub data Input : Type 0 where
  accepts : Outside → ℕ → Text → ℕ → Input
  receives : Outside → ℕ → Text → ℕ → Recv → Input
  reads : Outside → ℕ → Text → Received → Input
  beats : Bool → Text → Input
  requests : Outside → Request → Input
  subscribes : ℕ → Input
  unsubscribes : ℕ → Input

with_world : World → App → App
with_world w app = record app { world = w }

unfoldable pub call_on_message : Outside → List ℕ → Text → ℕ → App → App
unfolding with_world
call_on_message out raw peer_addr port app =
    with_world (on_message (env_of out app) raw peer_addr port app.world) app

unfoldable pub call_on_event : Outside → Text → Text → ℕ → App → App
unfolding with_world
call_on_event out event_type peer_addr port app =
    with_world (on_event (env_of out app) event_type peer_addr port app.world) app

unfoldable pub after_turn : Outside → ℕ → Text → ℕ → Turn → App → App
after_turn out port peer conn goes_on app = app
after_turn out port peer conn (calls raw) app = call_on_message out raw peer port app
after_turn out port peer conn breaks app =
    call_on_event out (codes "assoc_down") peer port
      (record app { server = Server.conn_ended port peer conn app.server })

unfoldable pub deliver_all : Outside → List Inbound → App → App
deliver_all out [] app = app
deliver_all out (i ∷ is) app =
    deliver_all out is (call_on_message out i.raw i.peer_addr i.local_port app)

unfoldable pub step : App → Input → App
unfolding after_turn deliver_all call_on_message call_on_event
step app (accepts out port peer conn) =
    call_on_event out (codes "assoc_up") peer port
      (record app { server = Server.accept port peer conn app.server })
step app (receives out port peer conn r) = after_turn out port peer conn (turn r) app
step app (reads out flag conn_id r) =
    let result = after_recv flag conn_id r app.client in
    deliver_all out result.calls (record app { client = result.client })
step app (beats raises conn_id) = record app { client = (heartbeat raises conn_id app.client).0 }
step app (requests out request) = (handle out request app).1
step app (subscribes ws) = record app {
  world = record app.world { hub = Ws.connect ws app.world.hub };
}
step app (unsubscribes ws) = record app {
  world = record app.world { hub = Ws.disconnect ws app.world.hub };
}

unfoldable pub run : App → List Input → App
run app [] = app
run app (i ∷ is) = run (step app i) is
