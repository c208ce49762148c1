-- ===== src/Core/Experiment.antt =====
-- ros2_resilience/core/experiment.py: the lifecycle of a trial. Times are integers, as the caller
-- passes them. A method gives what it returns or raises, and the lifecycle that it leaves, since an
-- assignment that precedes an exception stays made.
pub mod Calls
pub mod Actions
pub mod Ending
use ros2_resilience.Prelude.{
  Bool, true, false, String, Option, none, some, if◌then◌else◌, ℤ, pos, ◌+ℤ◌, ◌-ℤ◌, leb_ℤ, eqb_ℤ,
}
use ros2_resilience.Python.Float.{Float, seconds_to_ns}
use ros2_resilience.Python.Result.{Result, ok, raise, assertion_error, lifecycle_error, ◌>>=◌}
use ros2_resilience.Core.Scenario.{ScenarioConfig, is_healthy_control}

pub data LifecycleState : Type 0 where
  created starting baselining activating observing finalizing finished : LifecycleState

pub LifecycleState-discrete : Discrete LifecycleState
LifecycleState-discrete = hlevel

pub data ActionType : Type 0 where
  activate_fault deactivate_fault finish_trial : ActionType

pub record Action : Type 0 where
  pub type : ActionType
  pub reason : String

pub record TrialLifecycle (F : Type 0) : Type 0 where
  pub scenario : ScenarioConfig F
  pub state : LifecycleState
  pub starting_since_ns : Option ℤ
  pub baseline_start_ns : Option ℤ
  pub activation_requested_ns : Option ℤ
  pub activation_ns : Option ℤ
  pub deactivation_requested_ns : Option ℤ
  pub observation_deadline_ns : Option ℤ
  pub infrastructure_error : Option String

-- what a method returns or raises, and the lifecycle that it leaves
abbrev pub Outcome : Type 0 → Type 0 → Type 0
Outcome A F = Result A × TrialLifecycle F

-- `_ACTIVATION_REVISION`
abbrev pub activation_revision : ℤ
activation_revision = pos 1

abbrev plain : ActionType → Action
plain t = record { type = t; reason = "" }

-- `assert x is not None`
abbrev pub assert_some : Option ℤ → Result ℤ
assert_some none = raise assertion_error
assert_some (some t) = ok t

-- Whether the time since `since` has reached the limit, which is given in seconds.
elapsed : Option ℤ → Result ℤ → ℤ → Result Bool
elapsed since limit now = do
  from ← assert_some since
  length_ns ← limit
  ok (leb_ℤ length_ns (now -ℤ from))

module _ {F : Type 0} where
  -- `TrialLifecycle.__init__`
  unfoldable pub init : ScenarioConfig F → TrialLifecycle F
  init scenario = record {
    scenario = scenario;
    state = created;
    starting_since_ns = none;
    baseline_start_ns = none;
    activation_requested_ns = none;
    activation_ns = none;
    deactivation_requested_ns = none;
    observation_deadline_ns = none;
    infrastructure_error = none;
  }

  start_from : LifecycleState → TrialLifecycle F → ℤ → Outcome Unit F
  start_from created t now = (ok tt, record t { state = starting; starting_since_ns = some now })
  start_from _ t now = (raise lifecycle_error, t)

  unfoldable pub start : TrialLifecycle F → ℤ → Outcome Unit F
  unfolding start_from
  start t now = start_from t.state t now

  ready_from : LifecycleState → TrialLifecycle F → ℤ → Outcome Unit F
  ready_from starting t now = (ok tt, record t { state = baselining; baseline_start_ns = some now })
  ready_from _ t now = (raise lifecycle_error, t)

  unfoldable pub mark_ready : TrialLifecycle F → ℤ → Outcome Unit F
  unfolding ready_from
  mark_ready t now = ready_from t.state t now

  finish_from : LifecycleState → TrialLifecycle F → Outcome Unit F
  finish_from finalizing t = (ok tt, record t { state = finished })
  finish_from _ t = (raise lifecycle_error, t)

  unfoldable pub finish : TrialLifecycle F → Outcome Unit F
  unfolding finish_from
  finish t = finish_from t.state t

  fail_from : LifecycleState → TrialLifecycle F → String → Outcome (Option Action) F
  fail_from finalizing t message = (raise lifecycle_error, t)
  fail_from finished t message = (raise lifecycle_error, t)
  fail_from _ t message = (
    ok (some (record { type = finish_trial; reason = message })),
    record t { infrastructure_error = some message; state = finalizing },
  )

  -- `fail`, which always returns an action
  unfoldable pub fail : TrialLifecycle F → String → Outcome (Option Action) F
  unfolding fail_from
  fail t message = fail_from t.state t message

  fail_if : Result Bool → String → TrialLifecycle F → Outcome (Option Action) F
  unfolding fail
  fail_if (raise e) message t = (raise e, t)
  fail_if (ok true) message t = fail t message
  fail_if (ok false) message t = (ok none, t)

  -- The deadline, once its length is converted.
  set_deadline : TrialLifecycle F → ℤ → Result ℤ → Outcome (Option Action) F
  set_deadline t now (raise e) = (raise e, t)
  set_deadline t now (ok observation) =
      (ok none, record t { observation_deadline_ns = some (now +ℤ observation) })

module _ {F : Type 0} ⦃f : Float F⦄ where
  -- the transition to OBSERVING, which two methods make
  unfoldable pub observe_from : TrialLifecycle F → ℤ → Outcome (Option Action) F
  unfolding seconds_to_ns set_deadline
  observe_from t now =
      set_deadline (record t { state = observing; activation_ns = some now }) now
        (seconds_to_ns t.scenario.experiment.observation_after_activation_sec)

  applied_in : LifecycleState → TrialLifecycle F → ℤ → ℤ → Outcome (Option Action) F
  unfolding observe_from
  applied_in activating t revision now =
      if eqb_ℤ revision activation_revision then observe_from t now else (ok none, t)
  applied_in _ t revision now = (ok none, t)

  -- `on_config_applied`, which returns nothing
  unfoldable pub on_config_applied : TrialLifecycle F → ℤ → ℤ → Outcome (Option Action) F
  unfolding applied_in
  on_config_applied t revision now = applied_in t.state t revision now

  unfoldable pub tick_starting : TrialLifecycle F → ℤ → Outcome (Option Action) F
  unfolding fail_if elapsed seconds_to_ns
  tick_starting t now =
      fail_if
        (elapsed t.starting_since_ns (seconds_to_ns t.scenario.experiment.readiness_timeout_sec)
          now)
        "readiness timeout" t

  activate_if : Result Bool → TrialLifecycle F → ℤ → Outcome (Option Action) F
  unfolding observe_from
  activate_if (raise e) t now = (raise e, t)
  activate_if (ok false) t now = (ok none, t)
  activate_if (ok true) t now = if is_healthy_control t.scenario then observe_from t now else (
    ok (some (plain activate_fault)),
    record t { state = activating; activation_requested_ns = some now },
  )

  unfoldable pub tick_baselining : TrialLifecycle F → ℤ → Outcome (Option Action) F
  unfolding activate_if elapsed seconds_to_ns
  tick_baselining t now =
      activate_if
        (elapsed t.baseline_start_ns (seconds_to_ns t.scenario.experiment.healthy_baseline_sec) now)
        t now

  unfoldable pub tick_activating : TrialLifecycle F → ℤ → Outcome (Option Action) F
  unfolding fail_if elapsed seconds_to_ns
  tick_activating t now =
      fail_if
        (elapsed t.activation_requested_ns
          (seconds_to_ns t.scenario.experiment.readiness_timeout_sec) now)
        "fault activation not acknowledged in time" t

  -- The conjunction of `_tick_observing`: the duration is converted only where the other operands
  -- hold.
  duration_over : Bool → Option ℤ → Option ℤ → F → ℤ → Result Bool
  unfolding seconds_to_ns elapsed
  duration_over true requested activation duration now = ok false
  duration_over false (some requested) activation duration now = ok false
  duration_over false none none duration now = ok false
  duration_over false none (some since) duration now =
      elapsed (some since) (seconds_to_ns duration) now

  observe_until : Result Bool → ℤ → TrialLifecycle F → ℤ → Outcome (Option Action) F
  observe_until (raise e) deadline t now = (raise e, t)
  observe_until (ok true) deadline t now =
      (ok (some (plain deactivate_fault)), record t { deactivation_requested_ns = some now })
  observe_until (ok false) deadline t now =
      if leb_ℤ deadline now
      then (ok (some (plain finish_trial)), record t { state = finalizing })
      else (ok none, t)

  observe_to : Option ℤ → TrialLifecycle F → ℤ → Outcome (Option Action) F
  unfolding duration_over observe_until
  observe_to none t now = (raise assertion_error, t)
  observe_to (some deadline) t now =
      observe_until
        (duration_over (is_healthy_control t.scenario) t.deactivation_requested_ns t.activation_ns
          t.scenario.fault.duration_sec now)
        deadline t now

  unfoldable pub tick_observing : TrialLifecycle F → ℤ → Outcome (Option Action) F
  unfolding observe_to
  tick_observing t now = observe_to t.observation_deadline_ns t now

  tick_in : LifecycleState → TrialLifecycle F → ℤ → Outcome (Option Action) F
  unfolding tick_starting tick_baselining tick_activating tick_observing
  tick_in starting t now = tick_starting t now
  tick_in baselining t now = tick_baselining t now
  tick_in activating t now = tick_activating t now
  tick_in observing t now = tick_observing t now
  tick_in _ t now = (ok none, t)

  unfoldable pub tick : TrialLifecycle F → ℤ → Outcome (Option Action) F
  unfolding tick_in
  tick t now = tick_in t.state t now
