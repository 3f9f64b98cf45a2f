-- ===== src/Main/Tasks/Follow.antt =====
-- What becomes of one task while others run.
use sctp_probe.Prelude.{
  ℕ, ◌≡◌, ◌≢◌, ◌∙◌, List, [], ◌∷◌, some, All, ◌==◌, ==_iff, Bool-cases, inl, inr, get_elem?,
  get_elem?-append-of_some,
}
use sctp_probe.Rules.{Env, World}
use sctp_probe.Main.App.{env_of}
use sctp_probe.Main.Tasks.{
  Stage, System, Move, arrives, takes_turn, is_cancelled, happens, advance, perform, perform_all,
}
use sctp_probe.Main.Tasks.Progress.{own_turn, world-own_turn, other_turn, other_end}
use sctp_probe.Main.Tasks.Logs.{Clears}

-- The move does not cancel the task at `i`.
abbrev pub Spares : ℕ → Move → Type 0
Spares i (is_cancelled j) = i ≢ j
Spares i _ = Unit

-- `P` is about the world and the stage of a task that is not cancelled. Its own turns keep it, and so do
-- all other moves that do not delete the messages, where `Ok` holds of the system, which these moves keep.
module _ (Ok : System → Type 0) (P : World → Stage → Type 0)
    (stays : (sys : System) (m : Move) → ¬ Clears m → Ok sys → Ok (perform sys m))
    (own : (env : Env) (t : Stage) (w : World) → P w t → P (advance env t w).1 (advance env t w).0)
    (other : (sys : System) (m : Move) (t : Stage)
      → ¬ Clears m
      → Ok sys
      → P sys.app.world t
      → P (perform sys m).app.world t) where
  follow_move :
      (sys : System) (m : Move) (i : ℕ) (t : Stage)
      → ¬ Clears m
      → Spares i m
      → Ok sys
      → get_elem? sys.tasks i ≡ some t
      → P sys.app.world t
      → (t' : Stage) × (get_elem? (perform sys m).tasks i ≡ some t')
        × P (perform sys m).app.world t'
  unfolding perform
  follow_move sys (arrives r p q) i t keeps spares ok at h =
      (t, get_elem?-append-of_some sys.tasks _ i t at, other sys (arrives r p q) t keeps ok h)
  follow_move sys (takes_turn out j) i t keeps spares ok at h =
      let env = env_of out sys.app in
      let w = sys.app.world in
      elim (Bool-cases (i == j)) [
        | inl same ↦ (
          (advance env t w).0,
          rw (← (==_iff i j).0 same) (own_turn env sys.tasks i t w at),
          rw (← (==_iff i j).0 same, world-own_turn env sys.tasks i t w at) (own env t w h),
        )
        | inr different ↦ (
          t,
          other_turn env sys.tasks i j w (λ e. cc ((==_iff i j).1 e)) ∙ at,
          other sys (takes_turn out j) t keeps ok h,
        )
      ]
  follow_move sys (is_cancelled j) i t keeps spares ok at h =
      (t, other_end sys.tasks i j spares ∙ at, other sys (is_cancelled j) t keeps ok h)
  follow_move sys (happens input) i t keeps spares ok at h =
      (t, at, other sys (happens input) t keeps ok h)

  pub follow :
      (ms : List Move) (sys : System) (i : ℕ) (t : Stage)
      → All (λ m. ¬ Clears m) ms
      → All (Spares i) ms
      → Ok sys
      → get_elem? sys.tasks i ≡ some t
      → P sys.app.world t
      → (t' : Stage) × (get_elem? (perform_all sys ms).tasks i ≡ some t')
        × P (perform_all sys ms).app.world t'
  unfolding perform_all
  follow [] sys i t keeps spares ok at h = (t, at, h)
  follow (m ∷ ms) sys i t keeps spares ok at h =
      let (t', at', h') = follow_move sys m i t keeps.0 spares.0 ok at h in
      follow ms (perform sys m) i t' keeps.1 spares.1 (stays sys m keeps.0 ok) at' h'
