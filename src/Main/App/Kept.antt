-- ===== src/Main/App/Kept.antt =====
-- Whatever happens to the application, no rule of it comes to have fired more often than its count.
use sctp_probe.Prelude.{ℕ, ◌≡◌, refl, List, [], ◌∷◌, Option, none, some, Text, arith, ap}
use sctp_probe.Table.{Table}
use sctp_probe.Store
use sctp_probe.Store.{Rule, NewRule, rule_columns}
use sctp_probe.Server.Receive.{Turn, goes_on, calls, breaks, turn}
use sctp_probe.Client.Loops.{Inbound, after_recv}
use sctp_probe.Rules.{Env, World, broadcast}
use sctp_probe.Store.History
use sctp_probe.Store.History.{Call, saves_rule, deletes_rule, deletes_rules, resets}
use sctp_probe.Rules.Edits.{IsEdit, Within, edit-Within}
use sctp_probe.Rules.Budget.{IsKept, evaluate-IsKept}
use sctp_probe.Main.{
  SendBody, Attempt, went, failed, on_message, on_event, receive, send_bytes, with_bytes, bytes_of,
  log_sent,
}
use sctp_probe.Main.Attempts.{Ends, send_out-Ends}
use sctp_probe.Main.App.{App, Outside, env_of}
use sctp_probe.Main.App.Endpoints
use sctp_probe.Main.App.Endpoints.{Request, handle, new_rule}
use sctp_probe.Main.App.Runs.{
  world-start_reply, world-stop_reply, world-connect_reply, world-disconnect_reply,
}
use sctp_probe.Main.App.Steps.{
  Input, receives, reads, requests, step, after_turn, deliver_all, call_on_message, call_on_event,
}

IsKept-refl : (t : Table Rule) → IsKept t t
IsKept-refl t h o = (h, o)

same_rules : (t t' : Table Rule) → t' ≡ t → IsKept t t'
same_rules t t' e = rw e (IsKept-refl t)

IsKept-trans : (t u v : Table Rule) → IsKept t u → IsKept u v → IsKept t v
IsKept-trans t u v a b h o = let (h', o') = a h o in b h' o'

edit-IsKept : (s : Store.Store) (c : Call) → IsEdit c → IsKept s.rules (History.step s c).rules
edit-IsKept s c e h t =
    let budget : Within (λ k. 0) 0 s.rules = λ k n r f q. let b = h k n r f q in omega arith in
    let (within, table) = edit-Within (λ k. 0) 0 s c e t (λ k behind. refl) budget in
    (λ k n r f q. let b = within k n r f q in omega arith, table)

on_message-IsKept :
    (env : Env) (raw : List ℕ) (peer : Text) (port : ℕ) (w : World)
    → IsKept w.store.rules (on_message env raw peer port w).store.rules
unfolding on_message receive Store.save_message
on_message-IsKept env raw peer port w =
    let (saved, w') = receive env raw peer port w in evaluate-IsKept env saved none w'

send_bytes-IsKept :
    (env : Env) (body : SendBody) (w : World)
    → IsKept w.store.rules (send_bytes env body w).1.store.rules
unfolding send_bytes log_sent with_bytes Store.save_message
send_bytes-IsKept env body w = at (bytes_of env body body.template)
  where
    logged :
        (raw : List ℕ) (a : Attempt)
        → Ends w (λ x. x.store ≡ w.store) a
        → IsKept w.store.rules (log_sent env raw a).1.store.rules
    logged raw (failed reply w') (same, _) = same_rules _ _ (ap (λ (x : Store.Store). x.rules) same)
    logged raw (went w') same = same_rules _ _ (ap (λ (x : Store.Store). x.rules) same)

    at : (o : Option (List ℕ)) → IsKept w.store.rules (with_bytes env body o w).1.store.rules
    at none = IsKept-refl w.store.rules
    at (some raw) = logged raw _ (
        send_out-Ends env w (λ x. x.store ≡ w.store) (λ socket bytes x i. i) refl body.connection_id
          raw)

same_world-IsKept : (w w' : World) → w' ≡ w → IsKept w.store.rules w'.store.rules
same_world-IsKept w w' e = same_rules _ _ (ap (λ (x : World). x.store.rules) e)

handle-IsKept :
    (out : Outside) (request : Request) (app : App)
    → IsKept app.world.store.rules (handle out request app).1.world.store.rules
unfolding handle History.step
handle-IsKept out (Endpoints.server_start port ppid host) app =
    same_world-IsKept app.world _ (world-start_reply _ port host app)
handle-IsKept out (Endpoints.server_stop port) app =
    same_world-IsKept app.world _ (world-stop_reply port app)
handle-IsKept out (Endpoints.client_connect host port ppid) app =
    same_world-IsKept app.world _ (world-connect_reply _ _ app)
handle-IsKept out (Endpoints.client_disconnect id) app =
    same_world-IsKept app.world _ (world-disconnect_reply id app)
handle-IsKept out (Endpoints.create_rule body) app =
    edit-IsKept app.world.store (saves_rule (new_rule body)) tt
handle-IsKept out (Endpoints.delete_rule rule_id) app =
    edit-IsKept app.world.store (deletes_rule rule_id) tt
handle-IsKept out Endpoints.delete_all_rules app = edit-IsKept app.world.store deletes_rules tt
handle-IsKept out (Endpoints.send_bytes body) app =
    send_bytes-IsKept (env_of out app) body app.world
handle-IsKept out Endpoints.reset_session app = edit-IsKept app.world.store (resets out.uuid) tt
handle-IsKept out _ app = IsKept-refl app.world.store.rules

after_turn-IsKept :
    (out : Outside) (port : ℕ) (peer : Text) (conn : ℕ) (t : Turn) (app : App)
    → IsKept app.world.store.rules (after_turn out port peer conn t app).world.store.rules
unfolding after_turn call_on_event on_event broadcast call_on_message
after_turn-IsKept out port peer conn goes_on app = IsKept-refl app.world.store.rules
after_turn-IsKept out port peer conn (calls raw) app =
    on_message-IsKept (env_of out app) raw peer port app.world
after_turn-IsKept out port peer conn breaks app = IsKept-refl app.world.store.rules

deliver_all-IsKept :
    (out : Outside) (is : List Inbound) (app : App)
    → IsKept app.world.store.rules (deliver_all out is app).world.store.rules
unfolding deliver_all call_on_message
deliver_all-IsKept out [] app = IsKept-refl app.world.store.rules
deliver_all-IsKept out (i ∷ is) app =
    IsKept-trans app.world.store.rules _ _
      (on_message-IsKept (env_of out app) i.raw i.peer_addr i.local_port app.world)
      (deliver_all-IsKept out is (call_on_message out i.raw i.peer_addr i.local_port app))

pub step-IsKept :
    (app : App) (i : Input) → IsKept app.world.store.rules (step app i).world.store.rules
unfolding step call_on_event on_event broadcast
step-IsKept app (receives out port peer conn r) = after_turn-IsKept out port peer conn (turn r) app
step-IsKept app (reads out flag id r) =
    deliver_all-IsKept out (after_recv flag id r app.client).calls
      (record app { client = (after_recv flag id r app.client).client })
step-IsKept app (requests out request) = handle-IsKept out request app
step-IsKept app _ = IsKept-refl app.world.store.rules
