-- ===== src/Main/Tasks/Told.antt =====
-- Subscribers hear of no message that is not in the log, whatever tasks, requests and connections do.
use sctp_probe.Prelude.{
  ℕ, zero, suc, ◌≡◌, refl, sym, ap, ◌∙◌, List, [], ◌∷◌, Option, none, some, Text, All, All-append,
}
use mathlib.Core.List.{append-nil}
use sctp_probe.Table.{Row}
use sctp_probe.Store
use sctp_probe.Store.{Message}
use sctp_probe.Store.History.{IsExtension, log_append_only}
use sctp_probe.Server.Receive.{Turn, goes_on, calls, breaks, turn}
use sctp_probe.Client.Loops.{Inbound, after_recv}
use sctp_probe.Rules.{Env, World}
use sctp_probe.Main.{
  SendBody, Attempt, went, failed, on_event, send_bytes, with_bytes, bytes_of, log_sent,
}
use sctp_probe.Main.Attempts.{Ends, send_out-Ends}
use sctp_probe.Main.App.{App, Outside, env_of, started}
use sctp_probe.Main.App.Endpoints
use sctp_probe.Main.App.Endpoints.{Request, handle}
use sctp_probe.Main.App.Runs.{
  IsClearing, step-Acts, world-start_reply, world-stop_reply, world-connect_reply,
  world-disconnect_reply,
}
use sctp_probe.Main.App.Steps.{
  Input, accepts, receives, reads, requests, step, after_turn, deliver_all, call_on_message,
  call_on_event,
}
use sctp_probe.Main.Tasks.{
  Stage, reads_session, System, Move, arrives, takes_turn, is_cancelled, happens, end_at, turn_at,
  perform, perform_all,
}
use sctp_probe.Main.Tasks.Logs.{Clears, log_of}
use sctp_probe.Main.Tasks.Heard.{
  AreLogged, Tells, Tells-trans, quiet, broadcast-Tells, on_message-Tells, Holds, Holds-grows,
  advance-Holds, advance-Tells,
}

received-send_bytes :
    (env : Env) (body : SendBody) (w : World) → (send_bytes env body w).1.received ≡ w.received
unfolding send_bytes with_bytes log_sent
received-send_bytes env body w = at (bytes_of env body body.template)
  where
    logged :
        (raw : List ℕ) (a : Attempt)
        → Ends w (λ x. x.received ≡ w.received) a
        → (log_sent env raw a).1.received ≡ w.received
    logged raw (failed reply w') (same, _) = same
    logged raw (went w') same = same

    at : (o : Option (List ℕ)) → (with_bytes env body o w).1.received ≡ w.received
    at none = refl
    at (some raw) = logged raw _ (
        send_out-Ends env w (λ x. x.received ≡ w.received) (λ socket bytes x i. i) refl
          body.connection_id raw)

received-handle :
    (out : Outside) (request : Request) (app : App)
    → (handle out request app).1.world.received ≡ app.world.received
unfolding handle
received-handle out (Endpoints.server_start port ppid host) app =
    ap (λ (w : World). w.received) (world-start_reply _ port host app)
received-handle out (Endpoints.server_stop port) app =
    ap (λ (w : World). w.received) (world-stop_reply port app)
received-handle out (Endpoints.client_connect host port ppid) app =
    ap (λ (w : World). w.received) (world-connect_reply _ _ app)
received-handle out (Endpoints.client_disconnect id) app =
    ap (λ (w : World). w.received) (world-disconnect_reply id app)
received-handle out (Endpoints.send_bytes body) app =
    received-send_bytes (env_of out app) body app.world
received-handle out _ app = refl

step-IsExtension :
    (app : App) (i : Input)
    → ¬ IsClearing i
    → IsExtension app.world.store.messages.rows (step app i).world.store.messages.rows
step-IsExtension app i h =
    let acts = step-Acts app i in
    let (xs, e) = log_append_only app.world.store acts.made (acts.keeps h) in
    (xs, ap (λ (s : Store.Store). s.messages.rows) acts.runs ∙ e)

Tells-refl : (w : World) → Tells w w
Tells-refl w = quiet w w refl ([], sym (append-nil w.store.messages.rows))

deliver_all-Tells :
    (out : Outside) (is : List Inbound) (app : App) → Tells app.world (deliver_all out is app).world
unfolding deliver_all call_on_message
deliver_all-Tells out [] app = Tells-refl app.world
deliver_all-Tells out (i ∷ is) app =
    Tells-trans app.world _ _
      (on_message-Tells (env_of out app) i.raw i.peer_addr i.local_port app.world)
      (deliver_all-Tells out is (call_on_message out i.raw i.peer_addr i.local_port app))

after_turn-Tells :
    (out : Outside) (port : ℕ) (peer : Text) (conn : ℕ) (t : Turn) (app : App)
    → Tells app.world (after_turn out port peer conn t app).world
unfolding after_turn call_on_message call_on_event on_event
after_turn-Tells out port peer conn goes_on app = Tells-refl app.world
after_turn-Tells out port peer conn (calls raw) app =
    on_message-Tells (env_of out app) raw peer port app.world
after_turn-Tells out port peer conn breaks app = broadcast-Tells _ _ app.world tt

step-Tells : (app : App) (i : Input) → ¬ IsClearing i → Tells app.world (step app i).world
unfolding step call_on_event on_event
step-Tells app (accepts out port peer conn) h = broadcast-Tells _ _ app.world tt
step-Tells app (receives out port peer conn r) h = after_turn-Tells out port peer conn (turn r) app
step-Tells app (reads out flag id r) h =
    deliver_all-Tells out (after_recv flag id r app.client).calls
      (record app { client = (after_recv flag id r app.client).client })
step-Tells app (requests out request) h =
    quiet app.world _ (received-handle out request app)
      (step-IsExtension app (requests out request) h)
step-Tells app i h = quiet app.world _ refl (step-IsExtension app i h)

All-Holds-grows :
    (rows rows' : List (Row Message)) (ts : List Stage)
    → IsExtension rows rows'
    → All (Holds rows) ts
    → All (Holds rows') ts
All-Holds-grows rows rows' [] x h = tt
All-Holds-grows rows rows' (t ∷ ts) x h =
    (Holds-grows rows rows' t x h.0, All-Holds-grows rows rows' ts x h.1)

turn_at-Tells :
    (env : Env) (i : ℕ) (ts : List Stage) (w : World)
    → All (Holds w.store.messages.rows) ts
    → Tells w (turn_at env i ts w).1
      × All (Holds (turn_at env i ts w).1.store.messages.rows) (turn_at env i ts w).0
unfolding turn_at
turn_at-Tells env i [] w h = (Tells-refl w, tt)
turn_at-Tells env zero (t ∷ ts) w h =
    let told = advance-Tells env t w h.0 in
    (told, (advance-Holds env t w h.0, All-Holds-grows w.store.messages.rows _ ts told.grows h.1))
turn_at-Tells env (suc i) (t ∷ ts) w h =
    let (told, rest) = turn_at-Tells env i ts w h.1 in
    (told, (Holds-grows w.store.messages.rows _ t told.grows h.0, rest))

All-Holds-end_at :
    (rows : List (Row Message)) (i : ℕ) (ts : List Stage)
    → All (Holds rows) ts
    → All (Holds rows) (end_at i ts)
unfolding end_at
All-Holds-end_at rows i [] h = h
All-Holds-end_at rows zero (t ∷ ts) h = (tt, h.1)
All-Holds-end_at rows (suc i) (t ∷ ts) h = (h.0, All-Holds-end_at rows i ts h.1)

pub perform-Tells :
    (sys : System) (m : Move)
    → ¬ Clears m
    → All (Holds (log_of sys)) sys.tasks
    → Tells sys.app.world (perform sys m).app.world
      × All (Holds (log_of (perform sys m))) (perform sys m).tasks
unfolding perform
perform-Tells sys (arrives raw peer port) keeps h =
    (Tells-refl sys.app.world, All-append _ sys.tasks (reads_session raw peer port ∷ []) h (tt, tt))
perform-Tells sys (takes_turn out i) keeps h =
    turn_at-Tells (env_of out sys.app) i sys.tasks sys.app.world h
perform-Tells sys (is_cancelled i) keeps h =
    (Tells-refl sys.app.world, All-Holds-end_at (log_of sys) i sys.tasks h)
perform-Tells sys (happens input) keeps h =
    let told = step-Tells sys.app input keeps in
    (told, All-Holds-grows (log_of sys) _ sys.tasks told.grows h)

perform_all-Tells :
    (ms : List Move) (sys : System)
    → All (λ m. ¬ Clears m) ms
    → All (Holds (log_of sys)) sys.tasks
    → Tells sys.app.world (perform_all sys ms).app.world
unfolding perform_all
perform_all-Tells [] sys keeps h = Tells-refl sys.app.world
perform_all-Tells (m ∷ ms) sys keeps h =
    let (told, held) = perform-Tells sys m keeps.0 h in
    Tells-trans sys.app.world _ _ told (perform_all-Tells ms (perform sys m) keeps.1 held)

-- After the start, however the turns and cancellations of tasks, requests and changes of connections
-- are ordered, and unless the messages are deleted: the events that subscribers have received are about messages of
-- the log only, so a subscriber never hears of a message that a poll would not find.
pub perform_all-AreLogged :
    (uuid : Text) (ms : List Move)
    → All (λ m. ¬ Clears m) ms
    → let sys = perform_all (record { app = started uuid; tasks = [] }) ms in
      AreLogged (log_of sys) sys.app.world.received
unfolding started
perform_all-AreLogged uuid ms keeps =
    let sys : System = record { app = started uuid; tasks = [] } in
    let told = perform_all-Tells ms sys keeps tt in rw told.heard told.are_logged
