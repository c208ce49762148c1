-- ===== src/Core/Experiment/Actions.antt =====
-- Which actions the lifecycle of core/experiment.py returns, and in which order its states come.
use ros2_resilience.Prelude.{
  ℕ, ◌+◌, ◌≤◌, ◌≡◌, inl, inr, Bool, true, false, Bool-cases, Option, none, some, List, [], ◌∷◌,
  String, ℤ, arith, if◌then◌else◌,
}
use ros2_resilience.Python.Float.{Float}
use ros2_resilience.Python.Result.{Result, ok, raise}
use ros2_resilience.Core.Scenario.{ScenarioConfig, is_healthy_control}
use ros2_resilience.Core.Experiment
use ros2_resilience.Core.Experiment.{
  LifecycleState, created, starting, baselining, activating, observing, finalizing, finished,
  Action, ActionType, activate_fault, deactivate_fault, finish_trial, TrialLifecycle, Outcome, init,
  observe_from, set_deadline, activation_revision, tick_in, fail_from, fail_if, activate_if,
  observe_until, observe_to, elapsed, duration_over, applied_in, start_from, ready_from,
  finish_from,
}
use ros2_resilience.Core.Experiment.Calls.{
  Call, start, mark_ready, tick, on_config_applied, fail, finish, call, run_calls,
}

-- the order of the states
abbrev pub rank : LifecycleState → ℕ
rank created = 0
rank starting = 1
rank baselining = 2
rank activating = 3
rank observing = 4
rank finalizing = 5
rank finished = 6

abbrev pub is_activate : ActionType → ℕ
is_activate activate_fault = 1
is_activate _ = 0

abbrev pub is_deactivate : ActionType → ℕ
is_deactivate deactivate_fault = 1
is_deactivate _ = 0

abbrev pub is_finish : ActionType → ℕ
is_finish finish_trial = 1
is_finish _ = 0

-- how many actions of a kind a call returned
abbrev pub returned : (ActionType → ℕ) → Result (Option Action) → ℕ
returned kind (raise e) = 0
returned kind (ok none) = 0
returned kind (ok (some a)) = kind a.type

module _ {F : Type 0} ⦃f : Float F⦄ where
  unfoldable pub count_returned : (ActionType → ℕ) → List Call → TrialLifecycle F → ℕ
  count_returned kind [] t = 0
  count_returned kind (c ∷ cs) t =
      let (result, t') = call c t in returned kind result + count_returned kind cs t'

-- the actions that may still come
abbrev activations_left : Bool → LifecycleState → ℕ
activations_left true state = 0
activations_left false created = 1
activations_left false starting = 1
activations_left false baselining = 1
activations_left false _ = 0

abbrev deactivations_left : Bool → Option ℤ → ℕ
deactivations_left true requested = 0
deactivations_left false none = 1
deactivations_left false (some since) = 0

abbrev finishes_left : LifecycleState → ℕ
finishes_left finalizing = 0
finishes_left finished = 0
finishes_left _ = 1

-- What a call that returned `r` does to the lifecycle.
record Advances {F : Type 0} (t : TrialLifecycle F) (r : Result (Option Action))
    (t' : TrialLifecycle F) : Type 0 where
  control : is_healthy_control t'.scenario ≡ is_healthy_control t.scenario
  forward : rank t.state ≤ rank t'.state
  activations :
      returned is_activate r + activations_left (is_healthy_control t'.scenario) t'.state
      ≤ activations_left (is_healthy_control t.scenario) t.state
  deactivations :
      returned is_deactivate r
        + deactivations_left (is_healthy_control t'.scenario) t'.deactivation_requested_ns
      ≤ deactivations_left (is_healthy_control t.scenario) t.deactivation_requested_ns
  finishes : returned is_finish r + finishes_left t'.state ≤ finishes_left t.state

module _ {F : Type 0} ⦃f : Float F⦄ where
  start-Advances :
      (t : TrialLifecycle F) (now : ℤ) → let o = call (start now) t in Advances t o.0 o.1
  unfolding call Experiment.start
  start-Advances t now = ground arith

  finish-Advances : (t : TrialLifecycle F) → let o = call finish t in Advances t o.0 o.1
  unfolding call Experiment.finish
  finish-Advances t = ground arith

  ready-Advances :
      (t : TrialLifecycle F) (now : ℤ) → let o = call (mark_ready now) t in Advances t o.0 o.1
  unfolding call Experiment.mark_ready
  ready-Advances t now = ground arith

  fail-Advances :
      (t : TrialLifecycle F) (message : String)
      → let o = call (fail message) t in Advances t o.0 o.1
  unfolding call Experiment.fail
  fail-Advances t message = ground arith

  applied-Advances :
      (t : TrialLifecycle F) (revision now : ℤ)
      → let o = call (on_config_applied revision now) t in Advances t o.0 o.1
  unfolding call Experiment.on_config_applied
  applied-Advances t revision now = ground arith

  tick-Advances : (t : TrialLifecycle F) (now : ℤ) → let o = call (tick now) t in Advances t o.0 o.1
  unfolding call Experiment.tick
  tick-Advances t now = ground arith

  call-Advances : (c : Call) (t : TrialLifecycle F) → let o = call c t in Advances t o.0 o.1
  call-Advances (start now) t = start-Advances t now
  call-Advances (mark_ready now) t = ready-Advances t now
  call-Advances (tick now) t = tick-Advances t now
  call-Advances (on_config_applied revision now) t = applied-Advances t revision now
  call-Advances (fail message) t = fail-Advances t message
  call-Advances finish t = finish-Advances t

  -- No call takes the lifecycle back to an earlier state.
  pub run_calls-forward :
      (cs : List Call) (t : TrialLifecycle F) → rank t.state ≤ rank (run_calls cs t).state
  unfolding run_calls
  run_calls-forward [] t = omega arith
  run_calls-forward (c ∷ cs) t =
      let h = call-Advances c t in omega (arith, h.forward, run_calls-forward cs (call c t).1)

  counts :
      (cs : List Call) (t : TrialLifecycle F)
      → let control = is_healthy_control t.scenario in
        (count_returned is_activate cs t ≤ activations_left control t.state)
        × (count_returned is_deactivate cs t
            ≤ deactivations_left control t.deactivation_requested_ns)
        × (count_returned is_finish cs t ≤ finishes_left t.state)
  unfolding count_returned
  counts [] t = omega arith
  counts (c ∷ cs) t =
      let h = call-Advances c t in
      let rest = counts cs (call c t).1 in
      omega (arith, h.activations, h.deactivations, h.finishes, rest.0, rest.1, rest.2)

  -- In a trial, whatever the calls and whatever they raise, the caller is told at most once to
  -- activate the fault, at most once to deactivate it, and at most once to finish; for a healthy
  -- control it is never told to activate or to deactivate a fault.
  pub actions_at_most_once :
      (s : ScenarioConfig F) (cs : List Call)
      → let told : (ActionType → ℕ) → ℕ = λ kind. count_returned kind cs (init s) in
        let faults : ℕ = if is_healthy_control s then 0 else 1 in
        (told is_activate ≤ faults) × (told is_deactivate ≤ faults) × (told is_finish ≤ 1)
  unfolding init
  actions_at_most_once s cs =
      let (a, d, e) = counts cs (init s) in
      elim (Bool-cases (is_healthy_control s)) [
        | inl control ↦ rw control (rw control at a, rw control at d, e)
        | inr faulty ↦ rw faulty (rw faulty at a, rw faulty at d, e)
      ]
