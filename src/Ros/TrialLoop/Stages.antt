-- ===== src/Ros/TrialLoop/Stages.antt =====
-- How far the lifecycle is with the configurations of a trial, call by call.
use ros2_resilience.Prelude.{ℕ, ◌≤◌, ℤ, ◌≡◌, Bool, true, false, Option, none, some, String, arith}
use ros2_resilience.Python.Float.{Float}
use ros2_resilience.Python.Result.{ok, raise}
use ros2_resilience.Core.Scenario.{is_healthy_control}
use ros2_resilience.Core.Experiment
use ros2_resilience.Core.Experiment.{
  LifecycleState, created, starting, baselining, activating, observing, finalizing, finished,
  Action, ActionType, activate_fault, deactivate_fault, finish_trial, TrialLifecycle, Outcome, init,
  tick, start, mark_ready, fail, finish,
}

-- How many configurations have been applied, by what the lifecycle has come to. The first argument is
-- whether the scenario is a healthy control.
abbrev pub Stage : Bool → LifecycleState → Option ℤ → ℕ → Type 0
Stage h created none k = k ≡ 0
Stage h starting none k = k ≡ 0
Stage h baselining none k = k ≡ 0
Stage false activating none k = k ≡ 1
Stage true observing none k = k ≡ 0
Stage false observing none k = k ≡ 1
Stage false observing (some requested) k = k ≡ 2
Stage true finalizing none k = k ≡ 0
Stage true finished none k = k ≡ 0
Stage false finalizing requested k = k ≤ 2
Stage false finished requested k = k ≤ 2
Stage _ _ _ _ = ⊥

module _ {F : Type 0} where
  abbrev pub At : Bool → TrialLifecycle F → ℕ → Type 0
  At h t k = (is_healthy_control t.scenario ≡ h) × Stage h t.state t.deactivation_requested_ns k

  -- the stage after an action
  abbrev pub After : Bool → Option ActionType → TrialLifecycle F → ℕ → Type 0
  After h none t k = At h t k
  After h (some finish_trial) t k = At h t k
  After h (some activate_fault) t k = (k ≡ 0) × (h ≡ false) × At h t 1
  After h (some deactivate_fault) t k = (k ≡ 1) × (h ≡ false) × At h t 2

  abbrev pub AfterCall : Bool → Outcome (Option Action) F → ℕ → Type 0
  AfterCall h (raise e, t) k = Unit
  AfterCall h (ok none, t) k = At h t k
  AfterCall h (ok (some a), t) k = After h (some a.type) t k

  abbrev pub AfterPlain : {A : Type 0} → Bool → Outcome A F → ℕ → Type 0
  AfterPlain h (raise e, t) k = Unit
  AfterPlain h (ok a, t) k = At h t k

module _ {F : Type 0} ⦃f : Float F⦄ where
  pub tick-AfterCall :
      (h : Bool) (t : TrialLifecycle F) (now : ℤ) (k : ℕ) → At h t k → AfterCall h (tick t now) k
  unfolding tick
  tick-AfterCall h t now k at = ground arith

  pub mark_ready-AfterPlain :
      (h : Bool) (t : TrialLifecycle F) (now : ℤ) (k : ℕ)
      → At h t k
      → AfterPlain h (mark_ready t now) k
  unfolding mark_ready
  mark_ready-AfterPlain h t now k at = ground arith

  pub finish-AfterPlain :
      (h : Bool) (t : TrialLifecycle F) (k : ℕ) → At h t k → AfterPlain h (finish t) k
  unfolding finish
  finish-AfterPlain h t k at = ground arith

  pub fail-AfterPlain :
      (h : Bool) (t : TrialLifecycle F) (message : String) (k : ℕ)
      → At h t k
      → AfterPlain h (fail t message) k
  unfolding fail
  fail-AfterPlain h t message k at = ground arith

  pub applied-AfterPlain :
      (h : Bool) (t : TrialLifecycle F) (revision now : ℤ) (k : ℕ)
      → At h t k
      → AfterPlain h (Experiment.on_config_applied t revision now) k
  unfolding Experiment.on_config_applied
  applied-AfterPlain h t revision now k at = ground arith

  pub applied_by : (h : Bool) (t : TrialLifecycle F) (k : ℕ) → At h t k → h ≡ true → k ≡ 0
  applied_by h t k at control = ground arith
