-- ===== src/Main/Tasks.antt =====
-- The tasks of sctp_probe/main.py's `_on_message`, which overlap: a task runs from one `await` to the
-- next, and in between other tasks run, requests are handled and connections change. (Main has the
-- same handler run from end to end.) A broadcast is one turn, and so is a send, together with the
-- choice of its connection. A task may be cancelled where it waits: a stop of a listener, a disconnect
-- and the shutdown cancel the tasks of their connections (sctp_server.py, sctp_client.py), and the
-- CancelledError, which no `except Exception` catches, ends them. Whose task is cancelled is not
-- tracked: any task may be, at any time.
pub mod Alone
pub mod Progress
pub mod Logs
pub mod Follow
pub mod Handled
pub mod Heard
pub mod Told
use sctp_probe.Prelude.{
  ℕ, zero, suc, Bool, List, [], ◌∷◌, ◌++◌, Option, none, some, Text, codes, text_eq, if◌then◌else◌,
  pos,
}
use sctp_probe.Table.{Row}
use sctp_probe.Store.{Message, Rule, get_rules, increment_fired, get_session_id, save_message}
use sctp_probe.Decoder.{decode}
use sctp_probe.Encoder.{encode, no_kwargs}
use sctp_probe.Rules.{
  Env, World, Delivery, delivered, unsent, raised, message, rule_fired, broadcast, first_match,
  deliver, outbound, request_of,
}
use sctp_probe.Main.{inbound}
use sctp_probe.Main.App.{App, Outside, env_of}
use sctp_probe.Main.App.Steps
use sctp_probe.Main.App.Steps.{Input}

-- Where a task stands: what it awaits next, and the local variables that it still uses.
pub data Stage : Type 0 where
  reads_session : List ℕ → Text → ℕ → Stage
  saves : List ℕ → Text → ℕ → Text → Stage
  announces : Row Message → Stage
  reads_rules : Row Message → Stage
  sleeps : Row Rule → Row Message → Stage
  replies : Row Rule → Row Message → List ℕ → Stage
  reads_reply_session : Row Rule → Row Message → List ℕ → Stage
  saves_reply : Row Rule → Row Message → List ℕ → Text → Stage
  announces_reply : Row Rule → Row Message → Row Message → Stage
  announces_firing : Row Rule → Row Message → Stage
  done : Stage

-- `evaluate`: the first match sleeps for its delay; without one the task ends.
after_rules : Row Message → Option (Row Rule) → Stage
after_rules msg none = done
after_rules msg (some rule) = sleeps rule msg

-- `_execute` from the count of the firing to its send: the task ends, or it has bytes to send.
after_encode : Row Rule → Row Message → Option (List ℕ) → Stage
after_encode rule msg none = done
after_encode rule msg (some raw) = replies rule msg raw

after_template : Env → Row Rule → Row Message → Option Text → Stage
after_template env rule msg (some (c ∷ template)) =
    after_encode rule msg (encode env.py (c ∷ template) (some (request_of msg.cols)) no_kwargs)
after_template env rule msg _ = done

after_count : Env → Row Rule → Row Message → Stage
after_count env rule msg =
    let action = rule.cols.action in
    if text_eq action (codes "drop")
    then done
    else if text_eq action (codes "log_only")
    then done
    else if text_eq action (codes "auto_reply")
    then after_template env rule msg rule.cols.reply_template
    else done

-- The `try` block of the send: an exception ends the task.
after_send : Row Rule → Row Message → List ℕ → Delivery → World → Stage × World
after_send rule msg raw (delivered socket bytes) w =
    (reads_reply_session rule msg raw, record w { wire = w.wire ++ (socket, bytes) ∷ [] })
after_send rule msg raw unsent w = (reads_reply_session rule msg raw, w)
after_send rule msg raw raised w = (done, w)

-- A turn of a task: what it awaits, and the code up to the next `await`.
unfoldable pub advance : Env → Stage → World → Stage × World
unfolding after_rules after_encode after_template after_count after_send
advance env (reads_session raw peer port) w =
    (saves raw peer port (get_session_id env.uuid w.store), w)
advance env (saves raw peer port session_id) w =
    let (saved, s) =
      save_message env.now (inbound env session_id (decode env.py raw) peer port) w.store in
    (announces saved, record w { store = s })
advance env (announces msg) w = (reads_rules msg, broadcast env (message msg) w)
advance env (reads_rules msg) w = (after_rules msg (first_match msg.cols (get_rules w.store)), w)
advance env (sleeps rule msg) w =
    (after_count env rule msg, record w { store = increment_fired (pos rule.id) w.store })
advance env (replies rule msg raw) w =
    after_send rule msg raw (deliver env msg.cols.peer_addr none raw) w
advance env (reads_reply_session rule msg raw) w =
    (saves_reply rule msg raw (get_session_id env.uuid w.store), w)
advance env (saves_reply rule msg raw session_id) w =
    let (saved, s) =
      save_message env.now (outbound env session_id rule.id msg.cols (decode env.py raw)) w.store in
    (announces_reply rule msg saved, record w { store = s })
advance env (announces_reply rule msg saved) w =
    (announces_firing rule msg, broadcast env (message saved) w)
advance env (announces_firing rule msg) w = (done, broadcast env (rule_fired rule.id msg.id) w)
advance env done w = (done, w)

-- Turns of a task while nothing else runs.
unfoldable pub advance_by : ℕ → Env → Stage × World → Stage × World
advance_by zero env (t, w) = (t, w)
advance_by (suc n) env (t, w) = advance_by n env (advance env t w)

-- The application with the tasks that were made, the ended ones included.
pub record System : Type 0 where
  pub app : App
  pub tasks : List Stage

-- A message arrives, which makes a task; a task takes a turn or is cancelled; or something else
-- happens, from end to end.
pub data Move : Type 0 where
  arrives : List ℕ → Text → ℕ → Move
  takes_turn : Outside → ℕ → Move
  is_cancelled : ℕ → Move
  happens : Input → Move

unfoldable pub turn_at : Env → ℕ → List Stage → World → List Stage × World
turn_at env i [] w = ([], w)
turn_at env zero (t ∷ ts) w = let (t', w') = advance env t w in (t' ∷ ts, w')
turn_at env (suc i) (t ∷ ts) w = let (ts', w') = turn_at env i ts w in (t ∷ ts', w')

-- CancelledError ends the task.
unfoldable pub end_at : ℕ → List Stage → List Stage
end_at i [] = []
end_at zero (t ∷ ts) = done ∷ ts
end_at (suc i) (t ∷ ts) = t ∷ end_at i ts

unfoldable pub perform : System → Move → System
perform sys (arrives raw peer port) = record sys {
  tasks = sys.tasks ++ reads_session raw peer port ∷ [];
}
perform sys (takes_turn out i) =
    let (tasks, w) = turn_at (env_of out sys.app) i sys.tasks sys.app.world in
    record { app = record sys.app { world = w }; tasks = tasks }
perform sys (is_cancelled i) = record sys { tasks = end_at i sys.tasks }
perform sys (happens input) = record sys { app = Steps.step sys.app input }

unfoldable pub perform_all : System → List Move → System
perform_all sys [] = sys
perform_all sys (m ∷ ms) = perform_all (perform sys m) ms
