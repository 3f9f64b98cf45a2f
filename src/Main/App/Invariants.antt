-- ===== src/Main/App/Invariants.antt =====
-- What holds of the application after any sequence of things that happen to it.
use sctp_probe.Prelude.{ℕ, ◌≡◌, refl, List, [], ◌∷◌, Option, none, some, Text, arith}
use sctp_probe.Table.Find.{find}
use sctp_probe.Server
use sctp_probe.Store
use sctp_probe.Store.History.{IsStore, run_after-IsStore}
use sctp_probe.Server.Receive.{Turn, goes_on, calls, breaks, turn}
use sctp_probe.Client.{SctpClient, ConnectResult, ConnectError, connect, opened, refused}
use sctp_probe.Client.Loops.{Inbound, after_recv}
use sctp_probe.Client.Life
use sctp_probe.Client.Life.{IsNumbered, step-IsNumbered, disconnect_all-IsNumbered, run-IsNumbered}
use sctp_probe.Server.{StartResult, StartError}
use sctp_probe.Rules.Budget.{WithinBudget}
use sctp_probe.Main.App.{App, Outside, started}
use sctp_probe.Main.App.Endpoints
use sctp_probe.Main.App.Endpoints.{
  Request, handle, start_reply, stop_reply, connect_reply, disconnect_reply,
}
use sctp_probe.Main.App.Steps.{
  Input, receives, reads, beats, requests, step, run, after_turn, deliver_all, call_on_message,
  call_on_event,
}
use sctp_probe.Main.App.Runs.{step-Acts}
use sctp_probe.Main.App.Kept.{step-IsKept}

-- The rows of both tables are in the order of their keys, with no key above the counter; no rule with
-- a positive count has fired more often than its count; the next names of associations are not in use.
pub record IsApp (app : App) : Type 0 where
  pub store_IsStore : IsStore app.world.store
  pub rules_WithinBudget : WithinBudget app.world.store.rules
  pub client_IsNumbered : IsNumbered app.client

client-start_reply :
    (r : StartResult) (port : ℕ) (host : Text) (app : App)
    → (start_reply r port host app).1.client ≡ app.client
unfolding start_reply
client-start_reply (StartResult.started s) port host app = refl
client-start_reply (StartResult.refused StartError.already_listening) port host app = refl
client-start_reply (StartResult.refused StartError.unavailable) port host app = refl
client-start_reply (StartResult.refused StartError.os_error) port host app = refl

client-stop_reply : (port : Option ℕ) (app : App) → (stop_reply port app).1.client ≡ app.client
unfolding stop_reply
client-stop_reply none app = refl
client-stop_reply (some port) app = refl

client-connect_reply :
    (r : ConnectResult) (c : SctpClient) (app : App) → (connect_reply (r, c) app).1.client ≡ c
unfolding connect_reply
client-connect_reply (opened id) c app = refl
client-connect_reply (refused ConnectError.unavailable) c app = refl
client-connect_reply (refused ConnectError.os_error) c app = refl

disconnect_reply-IsNumbered :
    (id : Option Text) (app : App)
    → IsNumbered app.client
    → IsNumbered (disconnect_reply id app).1.client
unfolding disconnect_reply Life.step
disconnect_reply-IsNumbered none app v = disconnect_all-IsNumbered app.client v
disconnect_reply-IsNumbered (some []) app v = disconnect_all-IsNumbered app.client v
disconnect_reply-IsNumbered (some (c ∷ id)) app v =
    step-IsNumbered app.client (Life.disconnects (c ∷ id)) v

handle-IsNumbered :
    (out : Outside) (request : Request) (app : App)
    → IsNumbered app.client
    → IsNumbered (handle out request app).1.client
unfolding handle Life.step
handle-IsNumbered out (Endpoints.server_start port ppid host) app v =
    rw
      (client-start_reply (Server.start out.sctp_available out.created port ppid host app.server)
        port host app)
      v
handle-IsNumbered out (Endpoints.server_stop port) app v = rw (client-stop_reply port app) v
handle-IsNumbered out (Endpoints.client_connect host port ppid) app v =
    let (r, c) = connect out.sctp_available out.created host port ppid app.client in
    rw (client-connect_reply r c app)
      (step-IsNumbered app.client (Life.connects out.sctp_available out.created host port ppid) v)
handle-IsNumbered out (Endpoints.client_disconnect id) app v = disconnect_reply-IsNumbered id app v
handle-IsNumbered out _ app v = v

client-deliver_all :
    (out : Outside) (is : List Inbound) (app : App) → (deliver_all out is app).client ≡ app.client
unfolding deliver_all call_on_message
client-deliver_all out [] app = refl
client-deliver_all out (i ∷ is) app =
    client-deliver_all out is (call_on_message out i.raw i.peer_addr i.local_port app)

client-after_turn :
    (out : Outside) (port : ℕ) (peer : Text) (conn : ℕ) (t : Turn) (app : App)
    → (after_turn out port peer conn t app).client ≡ app.client
unfolding after_turn call_on_event call_on_message
client-after_turn out port peer conn goes_on app = refl
client-after_turn out port peer conn (calls raw) app = refl
client-after_turn out port peer conn breaks app = refl

-- Names survive every step.
app_step-IsNumbered :
    (app : App) (i : Input) → IsNumbered app.client → IsNumbered (step app i).client
unfolding step call_on_event Life.step
app_step-IsNumbered app (receives out port peer conn r) v =
    rw (client-after_turn out port peer conn (turn r) app) v
app_step-IsNumbered app (reads out flag id r) v =
    let c = (after_recv flag id r app.client).client in
    rw (client-deliver_all out (after_recv flag id r app.client).calls (record app { client = c }))
      (step-IsNumbered app.client (Life.reads flag id r) v)
app_step-IsNumbered app (beats raises id) v = step-IsNumbered app.client (Life.beats raises id) v
app_step-IsNumbered app (requests out request) v = handle-IsNumbered out request app v
app_step-IsNumbered app _ v = v

step-IsApp : (app : App) (i : Input) → IsApp app → IsApp (step app i)
step-IsApp app i v =
    let acts = step-Acts app i in
    record {
      store_IsStore = rw acts.runs (run_after-IsStore app.world.store acts.made v.store_IsStore);
      rules_WithinBudget = (step-IsKept app i v.rules_WithinBudget v.store_IsStore.rules_IsTable).0;
      client_IsNumbered = app_step-IsNumbered app i v.client_IsNumbered;
    }

run_after-IsApp : (is : List Input) (app : App) → IsApp app → IsApp (run app is)
unfolding run
run_after-IsApp [] app v = v
run_after-IsApp (i ∷ is) app v = run_after-IsApp is (step app i) (step-IsApp app i v)

-- Whatever comes in and whatever is requested after the start on a new database, each thing being
-- handled to its end before the next: the keys of both tables rise along their rows, no rule with a
-- positive count has fired more often than its count, and no association has a name that is still to
-- be given.
pub run-IsApp : (uuid : Text) (is : List Input) → IsApp (run (started uuid) is)
unfolding started
run-IsApp uuid is = run_after-IsApp is (started uuid) (record {
  store_IsStore = unfold Store.init_db in omega arith;
  rules_WithinBudget = unfold Store.init_db find in λ k c r e. absurd (cc e);
  client_IsNumbered = unfold Life.run in run-IsNumbered [];
})
