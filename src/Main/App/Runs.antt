-- ===== src/Main/App/Runs.antt =====
-- Whatever happens to the application, its store sees calls of its methods only.
use sctp_probe.Prelude.{
  ℕ, ◌≡◌, refl, List, [], ◌∷◌, ◌++◌, Option, none, some, Text, All, ap, ◌∙◌, sym,
}
use sctp_probe.Store
use sctp_probe.Store.{Message}
use sctp_probe.Store.History
use sctp_probe.Store.History.{
  Call, saves_rule, deletes_rule, deletes_rules, deletes_messages, resets, IsExtension,
  log_append_only,
}
use sctp_probe.Server.Receive.{Turn, goes_on, calls, breaks, turn}
use sctp_probe.Client.Loops.{Inbound, after_recv}
use sctp_probe.Client.{SctpClient, ConnectResult, ConnectError, opened}
use sctp_probe.Server.{StartResult, StartError}
use mathlib.Core.List.{append-nil, append_assoc}
use sctp_probe.Rules.{World, broadcast}
use sctp_probe.Main.{on_event}
use sctp_probe.Main.App.{App, Outside, env_of}
use sctp_probe.Main.App.Calls.{
  Acts, Acts-refl, Acts-trans, one_call, on_message-Acts, send_bytes-Acts,
}
use sctp_probe.Main.App.Endpoints
use sctp_probe.Main.App.Endpoints.{
  Request, handle, new_rule, start_reply, connect_reply, disconnect_reply, stop_reply,
}
use sctp_probe.Main.App.Steps.{
  Input, accepts, receives, reads, beats, requests, subscribes, unsubscribes, step, run, after_turn,
  deliver_all, call_on_message, call_on_event,
}

-- DELETE /api/messages
abbrev pub IsClear : Request → Type 0
IsClear Endpoints.delete_messages = Unit
IsClear _ = ⊥

abbrev pub IsClearing : Input → Type 0
IsClearing (requests out request) = IsClear request
IsClearing _ = ⊥

-- The endpoints of listeners and associations leave the world alone.
pub world-start_reply :
    (r : StartResult) (port : ℕ) (host : Text) (app : App)
    → (start_reply r port host app).1.world ≡ app.world
unfolding start_reply
world-start_reply (StartResult.started s) port host app = refl
world-start_reply (StartResult.refused StartError.already_listening) port host app = refl
world-start_reply (StartResult.refused StartError.unavailable) port host app = refl
world-start_reply (StartResult.refused StartError.os_error) port host app = refl

pub world-stop_reply : (port : Option ℕ) (app : App) → (stop_reply port app).1.world ≡ app.world
unfolding stop_reply
world-stop_reply none app = refl
world-stop_reply (some port) app = refl

pub world-connect_reply :
    (r : ConnectResult) (c : SctpClient) (app : App)
    → (connect_reply (r, c) app).1.world ≡ app.world
unfolding connect_reply
world-connect_reply (opened id) c app = refl
world-connect_reply (ConnectResult.refused ConnectError.unavailable) c app = refl
world-connect_reply (ConnectResult.refused ConnectError.os_error) c app = refl

pub world-disconnect_reply :
    (id : Option Text) (app : App) → (disconnect_reply id app).1.world ≡ app.world
unfolding disconnect_reply
world-disconnect_reply none app = refl
world-disconnect_reply (some []) app = refl
world-disconnect_reply (some (c ∷ id)) app = refl

same_world : {C : Type 0} (w w' : World) → w' ≡ w → Acts C w.store w'.store
same_world w w' e = rw e (Acts-refl w.store)

handle-Acts :
    (out : Outside) (request : Request) (app : App)
    → Acts (IsClear request) app.world.store (handle out request app).1.world.store
unfolding handle History.step
handle-Acts out (Endpoints.server_start port ppid host) app =
    same_world app.world _ (world-start_reply _ port host app)
handle-Acts out (Endpoints.server_stop port) app =
    same_world app.world _ (world-stop_reply port app)
handle-Acts out Endpoints.server_status app = Acts-refl app.world.store
handle-Acts out (Endpoints.client_connect host port ppid) app =
    same_world app.world _ (world-connect_reply _ _ app)
handle-Acts out (Endpoints.client_disconnect id) app =
    same_world app.world _ (world-disconnect_reply id app)
handle-Acts out Endpoints.client_status app = Acts-refl app.world.store
handle-Acts out (Endpoints.create_rule body) app =
    one_call app.world.store (saves_rule (new_rule body)) tt
handle-Acts out Endpoints.list_rules app = Acts-refl app.world.store
handle-Acts out (Endpoints.delete_rule rule_id) app =
    one_call app.world.store (deletes_rule rule_id) tt
handle-Acts out Endpoints.delete_all_rules app = one_call app.world.store deletes_rules tt
handle-Acts out (Endpoints.get_messages since_id direction pdu_type limit) app =
    Acts-refl app.world.store
handle-Acts out Endpoints.delete_messages app = record {
  made = deletes_messages ∷ [];
  runs = unfold History.run in refl;
  keeps = λ h. absurd (h tt);
}
handle-Acts out (Endpoints.send_bytes body) app = send_bytes-Acts (env_of out app) body app.world
handle-Acts out Endpoints.reset_session app = one_call app.world.store (resets out.uuid) tt
handle-Acts out (Endpoints.export_json session_id) app = Acts-refl app.world.store
handle-Acts out (Endpoints.export_pcap session_id) app = Acts-refl app.world.store

after_turn-Acts :
    {C : Type 0} (out : Outside) (port : ℕ) (peer : Text) (conn : ℕ) (t : Turn) (app : App)
    → Acts C app.world.store (after_turn out port peer conn t app).world.store
unfolding after_turn call_on_event on_event broadcast call_on_message
after_turn-Acts out port peer conn goes_on app = Acts-refl app.world.store
after_turn-Acts out port peer conn (calls raw) app =
    on_message-Acts (env_of out app) raw peer port app.world
after_turn-Acts out port peer conn breaks app = Acts-refl app.world.store

deliver_all-Acts :
    {C : Type 0} (out : Outside) (is : List Inbound) (app : App)
    → Acts C app.world.store (deliver_all out is app).world.store
unfolding deliver_all call_on_message
deliver_all-Acts out [] app = Acts-refl app.world.store
deliver_all-Acts out (i ∷ is) app =
    Acts-trans app.world.store _ _
      (on_message-Acts (env_of out app) i.raw i.peer_addr i.local_port app.world)
      (deliver_all-Acts out is (call_on_message out i.raw i.peer_addr i.local_port app))

pub step-Acts :
    (app : App) (i : Input) → Acts (IsClearing i) app.world.store (step app i).world.store
unfolding step call_on_event on_event broadcast
step-Acts app (accepts out port peer conn) = Acts-refl app.world.store
step-Acts app (receives out port peer conn r) = after_turn-Acts out port peer conn (turn r) app
step-Acts app (reads out flag id r) =
    deliver_all-Acts out (after_recv flag id r app.client).calls
      (record app { client = (after_recv flag id r app.client).client })
step-Acts app (beats raises id) = Acts-refl app.world.store
step-Acts app (requests out request) = handle-Acts out request app
step-Acts app (subscribes ws) = Acts-refl app.world.store
step-Acts app (unsubscribes ws) = Acts-refl app.world.store

-- Until DELETE /api/messages is called, the log of the application only grows: whatever comes in and
-- whatever is requested, all rows stay as they were and in their places.
pub app_log_append_only :
    (is : List Input) (app : App)
    → All (λ i. ¬ IsClearing i) is
    → IsExtension app.world.store.messages.rows (run app is).world.store.messages.rows
unfolding run
app_log_append_only [] app h = ([], sym (append-nil app.world.store.messages.rows))
app_log_append_only (i ∷ is) app h =
    let acts = step-Acts app i in
    let (xs, e) = log_append_only app.world.store acts.made (acts.keeps h.0) in
    let (ys, d) = app_log_append_only is (step app i) h.1 in
    (
      xs ++ ys,
      d
          ∙ ap (λ (s : Store.Store). s.messages.rows ++ ys) acts.runs
          ∙ ap (λ rows. rows ++ ys) e
          ∙ append_assoc app.world.store.messages.rows xs ys,
    )
