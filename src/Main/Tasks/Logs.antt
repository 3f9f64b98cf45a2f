-- ===== src/Main/Tasks/Logs.antt =====
-- What the tasks and what happens between their turns do to the log.
use sctp_probe.Prelude.{ℕ, zero, suc, ap, ◌∙◌, List, [], ◌∷◌, pos}
use sctp_probe.Table
use sctp_probe.Store
use sctp_probe.Store.History.{saves_message, fires, step, IsExtension, log_append_only}
use sctp_probe.Decoder.{decode}
use sctp_probe.Rules.{Env, World, Delivery, delivered, unsent, raised, outbound, broadcast}
use sctp_probe.Main.{inbound}
use sctp_probe.Main.App.{env_of}
use sctp_probe.Main.App.Calls.{Acts, Acts-refl, one_call}
use sctp_probe.Main.App.Runs.{IsClearing, step-Acts}
use sctp_probe.Main.Tasks.{
  Stage, saves, sleeps, replies, saves_reply, System, Move, arrives, takes_turn, is_cancelled,
  happens, after_send, advance, turn_at, perform,
}

after_send-Acts :
    {C : Type 0} (rule : _) (msg : _) (raw : List ℕ) (d : Delivery) (w : World)
    → Acts C w.store (after_send rule msg raw d w).1.store
unfolding after_send
after_send-Acts rule msg raw (delivered socket bytes) w = Acts-refl w.store
after_send-Acts rule msg raw unsent w = Acts-refl w.store
after_send-Acts rule msg raw raised w = Acts-refl w.store

advance-Acts :
    {C : Type 0} (env : Env) (t : Stage) (w : World) → Acts C w.store (advance env t w).1.store
unfolding advance step broadcast
advance-Acts env (saves raw peer port session_id) w =
    one_call w.store (saves_message env.now (inbound env session_id (decode env.py raw) peer port))
      tt
advance-Acts env (sleeps rule msg) w = one_call w.store (fires (pos rule.id)) tt
advance-Acts env (replies rule msg raw) w = after_send-Acts rule msg raw _ w
advance-Acts env (saves_reply rule msg raw session_id) w =
    one_call w.store
      (saves_message env.now (outbound env session_id rule.id msg.cols (decode env.py raw))) tt
advance-Acts env _ w = Acts-refl w.store

turn_at-Acts :
    {C : Type 0} (env : Env) (i : ℕ) (ts : List Stage) (w : World)
    → Acts C w.store (turn_at env i ts w).1.store
unfolding turn_at
turn_at-Acts env i [] w = Acts-refl w.store
turn_at-Acts env zero (t ∷ ts) w = advance-Acts env t w
turn_at-Acts env (suc i) (t ∷ ts) w = turn_at-Acts env i ts w

-- The move is DELETE /api/messages.
abbrev pub Clears : Move → Type 0
Clears (happens input) = IsClearing input
Clears _ = ⊥

perform-Acts :
    (sys : System) (m : Move) → Acts (Clears m) sys.app.world.store (perform sys m).app.world.store
unfolding perform
perform-Acts sys (arrives raw peer port) = Acts-refl sys.app.world.store
perform-Acts sys (takes_turn out i) = turn_at-Acts (env_of out sys.app) i sys.tasks sys.app.world
perform-Acts sys (is_cancelled i) = Acts-refl sys.app.world.store
perform-Acts sys (happens input) = step-Acts sys.app input

abbrev pub log_of : System → List (Table.Row Store.Message)
log_of sys = sys.app.world.store.messages.rows

pub perform-IsExtension :
    (sys : System) (m : Move) → ¬ Clears m → IsExtension (log_of sys) (log_of (perform sys m))
perform-IsExtension sys m h =
    let acts = perform-Acts sys m in
    let (xs, e) = log_append_only sys.app.world.store acts.made (acts.keeps h) in
    (xs, ap (λ (s : Store.Store). s.messages.rows) acts.runs ∙ e)

pub advance-IsExtension :
    (env : Env) (t : Stage) (w : World)
    → IsExtension w.store.messages.rows (advance env t w).1.store.messages.rows
advance-IsExtension env t w =
    let acts = advance-Acts {C = ⊥} env t w in
    let (xs, e) = log_append_only w.store acts.made (acts.keeps (λ h. h)) in
    (xs, ap (λ (s : Store.Store). s.messages.rows) acts.runs ∙ e)
