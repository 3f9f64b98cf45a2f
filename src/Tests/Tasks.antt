-- ===== src/Tests/Tasks.antt =====
-- The tasks of messages: sctp_probe/main.py
use sctp_probe.Prelude.{
  ◌≡◌, ◌≢◌, zero, suc, List, [], ◌∷◌, some, codes, arith, get_elem?, All, Text,
}
use sctp_probe.Main.App.{started}
use sctp_probe.Main.App.Endpoints
use sctp_probe.Main.App.Steps.{requests, subscribes}
use sctp_probe.Main.Tasks.{
  reads_session, done, System, Move, arrives, takes_turn, is_cancelled, happens, perform_all,
}
use sctp_probe.Main.Tasks.Logs.{Clears, log_of}
use sctp_probe.Main.Tasks.Follow.{Spares}
use sctp_probe.Main.Tasks.Handled.{IsFound, message_handled}
use sctp_probe.Main.Tasks.Heard.{AreLogged}
use sctp_probe.Main.Tasks.Told.{perform_all-AreLogged}
use sctp_probe.Tests.App.{outside, replying, ruled}

abbrev peer : Text
peer = codes "10.0.0.2:40000"

-- One message has begun when another one arrives.
abbrev begun : System
begun = record { app = ruled; tasks = reads_session (7 ∷ []) peer 29168 ∷ [] }

-- The turns of the two tasks alternate, the session is reset in between, and the first task is
-- cancelled before it has ended.
abbrev alternating : List Move
alternating =
    takes_turn replying 0
    ∷ takes_turn replying 1
    ∷ happens (requests replying Endpoints.reset_session)
    ∷ takes_turn replying 1
    ∷ takes_turn replying 0
    ∷ takes_turn replying 1
    ∷ takes_turn replying 1
    ∷ is_cancelled 0
    ∷ takes_turn replying 1
    ∷ takes_turn replying 1
    ∷ takes_turn replying 1
    ∷ takes_turn replying 1
    ∷ takes_turn replying 1
    ∷ takes_turn replying 1
    ∷ []

alternating_keeps : All (λ m. ¬ Clears m) alternating
alternating_keeps = (
  λ h. h,
  (
    λ h. h,
    (
      λ h. h,
      (
        λ h. h,
        (
          λ h. h,
          (
            λ h. h,
            (λ h. h, (λ h. h, (λ h. h, (λ h. h, (λ h. h, (λ h. h, (λ h. h, (λ h. h, tt)))))))),
          ),
        ),
      ),
    ),
  ),
)

alternating-Spares : All (Spares 1) alternating
alternating-Spares =
    (tt, (tt, (tt, (tt, (tt, (tt, (tt, (other, (tt, (tt, (tt, (tt, (tt, (tt, tt))))))))))))))
  where
    other : suc zero ≢ zero
    other e = omega (arith, e)

message_handled_example :
    let after = perform_all begun (arrives (1 ∷ []) peer 29168 ∷ alternating) in
    (get_elem? after.tasks 1 ≡ some done)
    × IsFound (1 ∷ []) peer 29168 (log_of begun) (log_of after)
message_handled_example =
    message_handled begun (1 ∷ []) peer 29168 alternating (omega arith, tt) alternating_keeps
      alternating-Spares (omega arith)

abbrev opening : List Move
opening =
    happens (subscribes 1)
    ∷ arrives (1 ∷ []) peer 29168
    ∷ arrives (2 ∷ []) peer 29168
    ∷ takes_turn outside 1
    ∷ takes_turn outside 0
    ∷ takes_turn outside 0
    ∷ takes_turn outside 1
    ∷ takes_turn outside 1
    ∷ takes_turn outside 0
    ∷ []

opening_keeps : All (λ m. ¬ Clears m) opening
opening_keeps = (
  (λ h. h),
  (
    (λ h. h),
    ((λ h. h), ((λ h. h), ((λ h. h), ((λ h. h), ((λ h. h), ((λ h. h), ((λ h. h), tt))))))),
  ),
)

perform_all-AreLogged_example :
    let sys = perform_all (record { app = started (codes "s1"); tasks = [] }) opening in
    AreLogged (log_of sys) sys.app.world.received
perform_all-AreLogged_example = perform_all-AreLogged (codes "s1") opening opening_keeps
