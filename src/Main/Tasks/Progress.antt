-- ===== src/Main/Tasks/Progress.antt =====
-- Tasks come to their ends: what the turns of a task do to its stage, and that other moves leave it.
use sctp_probe.Prelude.{
  ℕ, zero, suc, ◌+◌, ◌-◌, ◌≤◌, ◌≡◌, ◌≢◌, refl, ap, ◌∙◌, List, [], ◌∷◌, some, ◌==◌, ==_iff,
  if◌then◌else◌, Bool-cases, inl, inr, arith, get_elem?, get_elem?-append-of_some,
}
use sctp_probe.Rules.{Env, World, Delivery, delivered, unsent, raised}
use sctp_probe.Main.App.{env_of}
use sctp_probe.Main.Tasks.{
  Stage, reads_session, saves, announces, reads_rules, sleeps, replies, reads_reply_session,
  saves_reply, announces_reply, announces_firing, done, System, Move, arrives, takes_turn,
  is_cancelled, happens, end_at, after_rules, after_encode, after_template, after_count, after_send,
  advance, turn_at, perform, perform_all,
}

-- The turns that a task needs at most until it is done.
abbrev pub left : Stage → ℕ
left (reads_session raw peer port) = 10
left (saves raw peer port session_id) = 9
left (announces msg) = 8
left (reads_rules msg) = 7
left (sleeps rule msg) = 6
left (replies rule msg raw) = 5
left (reads_reply_session rule msg raw) = 4
left (saves_reply rule msg raw session_id) = 3
left (announces_reply rule msg saved) = 2
left (announces_firing rule msg) = 1
left done = 0

none_left : (t : Stage) → left t ≤ 0 → t ≡ done
none_left done h = refl
none_left _ h = absurd (omega arith)

-- The turns that the moves have for the task at `i`.
abbrev pub turns_of : ℕ → List Move → ℕ
turns_of i [] = 0
turns_of i (takes_turn out j ∷ ms) = let n = turns_of i ms in if i == j then suc n else n
turns_of i (_ ∷ ms) = turns_of i ms

left-after_send :
    (rule : _) (msg : _) (raw : List ℕ) (d : Delivery) (w : World)
    → left (after_send rule msg raw d w).0 ≤ 4
unfolding after_send
left-after_send rule msg raw (delivered socket bytes) w = omega arith
left-after_send rule msg raw unsent w = omega arith
left-after_send rule msg raw raised w = omega arith

pub left-advance : (env : Env) (t : Stage) (w : World) → left (advance env t w).0 ≤ left t - 1
unfolding advance after_rules after_encode after_template after_count
left-advance env (reads_rules msg) w = ground arith
left-advance env (sleeps rule msg) w = ground arith
left-advance env (replies rule msg raw) w = left-after_send rule msg raw _ w
left-advance env _ w = omega arith

pub own_turn :
    (env : Env) (ts : List Stage) (i : ℕ) (t : Stage) (w : World)
    → get_elem? ts i ≡ some t
    → get_elem? (turn_at env i ts w).0 i ≡ some (advance env t w).0
unfolding turn_at
own_turn env [] i t w h = absurd (cc h)
own_turn env (x ∷ ts) zero t w h = let e : some x ≡ some t = h in cc
own_turn env (x ∷ ts) (suc i) t w h = own_turn env ts i t w h

pub world-own_turn :
    (env : Env) (ts : List Stage) (i : ℕ) (t : Stage) (w : World)
    → get_elem? ts i ≡ some t
    → (turn_at env i ts w).1 ≡ (advance env t w).1
unfolding turn_at
world-own_turn env [] i t w h = absurd (cc h)
world-own_turn env (x ∷ ts) zero t w h = let e : some x ≡ some t = h in cc
world-own_turn env (x ∷ ts) (suc i) t w h = world-own_turn env ts i t w h

pub other_turn :
    (env : Env) (ts : List Stage) (i j : ℕ) (w : World)
    → i ≢ j
    → get_elem? (turn_at env j ts w).0 i ≡ get_elem? ts i
unfolding turn_at
other_turn env [] i j w h = refl
other_turn env (x ∷ ts) zero zero w h = absurd (h refl)
other_turn env (x ∷ ts) zero (suc j) w h = refl
other_turn env (x ∷ ts) (suc i) zero w h = refl
other_turn env (x ∷ ts) (suc i) (suc j) w h = other_turn env ts i j w (λ e. h (ap suc e))

pub own_end :
    (ts : List Stage) (i : ℕ) (t : Stage)
    → get_elem? ts i ≡ some t
    → get_elem? (end_at i ts) i ≡ some done
unfolding end_at
own_end [] i t h = absurd (cc h)
own_end (x ∷ ts) zero t h = refl
own_end (x ∷ ts) (suc i) t h = own_end ts i t h

pub other_end : (ts : List Stage) (i j : ℕ) → i ≢ j → get_elem? (end_at j ts) i ≡ get_elem? ts i
unfolding end_at
other_end [] i j h = refl
other_end (x ∷ ts) zero zero h = absurd (h refl)
other_end (x ∷ ts) zero (suc j) h = refl
other_end (x ∷ ts) (suc i) zero h = refl
other_end (x ∷ ts) (suc i) (suc j) h = other_end ts i j (λ e. h (ap suc e))

turns_of-cons :
    (i : ℕ) (m : Move) (ms : List Move) → turns_of i (m ∷ ms) ≡ turns_of i (m ∷ []) + turns_of i ms
turns_of-cons i (arrives raw peer port) ms = omega arith
turns_of-cons i (takes_turn out j) ms = ground arith
turns_of-cons i (is_cancelled j) ms = omega arith
turns_of-cons i (happens input) ms = omega arith

-- The stage of a task after a move: no task goes back, and its own turns take it on.
own_move :
    (sys : System) (m : Move) (i : ℕ) (t : Stage)
    → get_elem? sys.tasks i ≡ some t
    → (t' : Stage) × (get_elem? (perform sys m).tasks i ≡ some t')
      × (left t' ≤ left t - turns_of i (m ∷ []))
unfolding perform
own_move sys (arrives raw peer port) i t h =
    (t, get_elem?-append-of_some sys.tasks _ i t h, omega arith)
own_move sys (takes_turn out j) i t h =
    let env = env_of out sys.app in
    let w = sys.app.world in
    elim (Bool-cases (i == j)) [
      | inl same ↦
          let own = own_turn env sys.tasks i t w h in
          ((advance env t w).0, rw (← (==_iff i j).0 same) own, rw same (left-advance env t w))
      | inr other ↦ (
        t,
        other_turn env sys.tasks i j w (λ e. cc ((==_iff i j).1 e)) ∙ h,
        rw other (omega arith),
      )
    ]
own_move sys (is_cancelled j) i t h = elim (Bool-cases (i == j)) [
  | inl same ↦ (done, rw (← (==_iff i j).0 same) (own_end sys.tasks i t h), omega arith)
  | inr other ↦ (t, other_end sys.tasks i j (λ e. cc ((==_iff i j).1 e)) ∙ h, omega arith)
]
own_move sys (happens input) i t h = (t, h, omega arith)

-- A task that is given as many turns as it needs at most is done, whatever other tasks do, requests
-- are handled, messages arrive and tasks are cancelled in between.
pub perform_all-ends :
    (ms : List Move) (sys : System) (i : ℕ) (t : Stage)
    → get_elem? sys.tasks i ≡ some t
    → left t ≤ turns_of i ms
    → get_elem? (perform_all sys ms).tasks i ≡ some done
unfolding perform_all
perform_all-ends [] sys i t h enough = h ∙ ap some (none_left t enough)
perform_all-ends (m ∷ ms) sys i t h enough =
    let (t', h', less) = own_move sys m i t h in
    perform_all-ends ms (perform sys m) i t' h' (omega (arith, turns_of-cons i m ms))
