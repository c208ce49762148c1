-- ===== src/Core/Experiment/Calls.antt =====
-- Sequences of calls of the lifecycle of core/experiment.py, and that none of its assertions fails.
use ros2_resilience.Prelude.{
  ◌≡◌, inl, inr, Bool, true, false, Bool-cases, Option, none, some, List, [], ◌∷◌, String, ℤ, eqb_ℤ,
  leb_ℤ,
}
use ros2_resilience.Python.Float.{Float, seconds_to_ns}
use ros2_resilience.Python.Result.{Result, ok, raise}
use ros2_resilience.Core.Scenario.{ScenarioConfig, is_healthy_control}
use ros2_resilience.Core.Experiment
use ros2_resilience.Core.Experiment.{
  LifecycleState, created, starting, baselining, activating, observing, finalizing, finished,
  Action, TrialLifecycle, Outcome, init, activation_revision, observe_from, tick_starting,
  tick_baselining, tick_activating, tick_observing, tick_in, fail_from, fail_if, activate_if,
  observe_until, observe_to, applied_in, start_from, ready_from, finish_from, elapsed,
  duration_over, assert_some,
}

pub data Call : Type 0 where
  start mark_ready tick : ℤ → Call
  on_config_applied : ℤ → ℤ → Call
  fail : String → Call
  finish : Call

-- what a method that returns nothing gives
abbrev pub no_action : {F : Type 0} → Outcome (Unit {0}) F → Outcome (Option Action) F
no_action (ok _, t) = (ok none, t)
no_action (raise e, t) = (raise e, t)

-- every duration of the scenario is a whole number of nanoseconds after rounding
pub record IsTimed {F : Type 0} ⦃f : Float F⦄ (s : ScenarioConfig F) : Type 0 where
  pub readiness_ns : ℤ
  pub readiness_timed : seconds_to_ns s.experiment.readiness_timeout_sec ≡ ok readiness_ns
  pub baseline_ns : ℤ
  pub baseline_timed : seconds_to_ns s.experiment.healthy_baseline_sec ≡ ok baseline_ns
  pub observation_ns : ℤ
  pub observation_timed :
      seconds_to_ns s.experiment.observation_after_activation_sec ≡ ok observation_ns
  pub duration_ns : ℤ
  pub duration_timed : seconds_to_ns s.fault.duration_sec ≡ ok duration_ns

abbrev pub HasTime : Option ℤ → Type 0
HasTime none = ⊥
HasTime (some t) = Unit

module _ {F : Type 0} ⦃f : Float F⦄ where
  unfoldable pub call : Call → TrialLifecycle F → Outcome (Option Action) F
  call (start now) t = no_action (Experiment.start t now)
  call (mark_ready now) t = no_action (Experiment.mark_ready t now)
  call (tick now) t = Experiment.tick t now
  call (on_config_applied revision now) t = Experiment.on_config_applied t revision now
  call (fail message) t = Experiment.fail t message
  call finish t = no_action (Experiment.finish t)

  -- the lifecycle after a sequence of calls
  unfoldable pub run_calls : List Call → TrialLifecycle F → TrialLifecycle F
  run_calls [] t = t
  run_calls (c ∷ cs) t = run_calls cs (call c t).1

  -- the times that the state of the lifecycle rests on
  abbrev pub Anchors : LifecycleState → TrialLifecycle F → Type 0
  Anchors starting t = HasTime t.starting_since_ns
  Anchors baselining t = HasTime t.baseline_start_ns
  Anchors activating t = HasTime t.activation_requested_ns
  Anchors observing t = HasTime t.activation_ns × HasTime t.observation_deadline_ns
  Anchors _ t = Unit

  pub record IsAnchored (t : TrialLifecycle F) : Type 0 where
    pub timed : IsTimed t.scenario
    pub anchors : Anchors t.state t

  observe_from-IsAnchored :
      (t : TrialLifecycle F) (now : ℤ) → IsTimed t.scenario → IsAnchored (observe_from t now).1
  unfolding observe_from
  observe_from-IsAnchored t now d =
      rw d.observation_timed (record { timed = d; anchors = (tt, tt) })

  fail_from-IsAnchored :
      (state : LifecycleState) (t : TrialLifecycle F) (message : String)
      → IsAnchored t
      → IsAnchored (fail_from state t message).1
  unfolding fail_from
  fail_from-IsAnchored finalizing t message h = h
  fail_from-IsAnchored finished t message h = h
  fail_from-IsAnchored _ t message h = record { timed = h.timed; anchors = tt }

  fail_if-IsAnchored :
      (test : Result Bool) (message : String) (t : TrialLifecycle F)
      → IsAnchored t
      → IsAnchored (fail_if test message t).1
  unfolding fail_if Experiment.fail
  fail_if-IsAnchored (raise e) message t h = h
  fail_if-IsAnchored (ok true) message t h = fail_from-IsAnchored t.state t message h
  fail_if-IsAnchored (ok false) message t h = h

  activate_if-IsAnchored :
      (test : Result Bool) (t : TrialLifecycle F) (now : ℤ)
      → IsAnchored t
      → IsAnchored (activate_if test t now).1
  unfolding activate_if
  activate_if-IsAnchored (raise e) t now h = h
  activate_if-IsAnchored (ok false) t now h = h
  activate_if-IsAnchored (ok true) t now h = elim (Bool-cases (is_healthy_control t.scenario)) [
    | inl control ↦ rw control (observe_from-IsAnchored t now h.timed)
    | inr faulty ↦ rw faulty (record { timed = h.timed; anchors = tt })
  ]

  requested-Anchors :
      (state : LifecycleState) (t : TrialLifecycle F) (now : ℤ)
      → Anchors state t
      → Anchors state (record t { deactivation_requested_ns = some now })
  requested-Anchors created t now h = tt
  requested-Anchors starting t now h = h
  requested-Anchors baselining t now h = h
  requested-Anchors activating t now h = h
  requested-Anchors observing t now h = h
  requested-Anchors finalizing t now h = tt
  requested-Anchors finished t now h = tt

  observe_until-IsAnchored :
      (test : Result Bool) (deadline : ℤ) (t : TrialLifecycle F) (now : ℤ)
      → IsAnchored t
      → IsAnchored (observe_until test deadline t now).1
  unfolding observe_until
  observe_until-IsAnchored (raise e) deadline t now h = h
  observe_until-IsAnchored (ok true) deadline t now h = record {
    timed = h.timed;
    anchors = requested-Anchors t.state t now h.anchors;
  }
  observe_until-IsAnchored (ok false) deadline t now h = elim (Bool-cases (leb_ℤ deadline now)) [
    | inl over ↦ rw over (record { timed = h.timed; anchors = tt })
    | inr before ↦ rw before h
  ]

  observe_to-IsAnchored :
      (deadline : Option ℤ) (t : TrialLifecycle F) (now : ℤ)
      → IsAnchored t
      → IsAnchored (observe_to deadline t now).1
  unfolding observe_to
  observe_to-IsAnchored none t now h = h
  observe_to-IsAnchored (some deadline) t now h = observe_until-IsAnchored _ deadline t now h

  tick_in-IsAnchored :
      (state : LifecycleState) (t : TrialLifecycle F) (now : ℤ)
      → IsAnchored t
      → IsAnchored (tick_in state t now).1
  unfolding tick_in
  tick_in-IsAnchored starting t now h = fail_if-IsAnchored _ "readiness timeout" t h
  tick_in-IsAnchored baselining t now h = activate_if-IsAnchored _ t now h
  tick_in-IsAnchored activating t now h =
      fail_if-IsAnchored _ "fault activation not acknowledged in time" t h
  tick_in-IsAnchored observing t now h = observe_to-IsAnchored t.observation_deadline_ns t now h
  tick_in-IsAnchored _ t now h = h

  applied_in-IsAnchored :
      (state : LifecycleState) (t : TrialLifecycle F) (revision now : ℤ)
      → IsAnchored t
      → IsAnchored (applied_in state t revision now).1
  unfolding applied_in
  applied_in-IsAnchored activating t revision now h =
      elim (Bool-cases (eqb_ℤ revision activation_revision)) [
        | inl same ↦ rw same (observe_from-IsAnchored t now h.timed)
        | inr other ↦ rw other h
      ]
  applied_in-IsAnchored _ t revision now h = h

  start_from-IsAnchored :
      (state : LifecycleState) (t : TrialLifecycle F) (now : ℤ)
      → IsAnchored t
      → IsAnchored (no_action (start_from state t now)).1
  unfolding start_from
  start_from-IsAnchored created t now h = record { timed = h.timed; anchors = tt }
  start_from-IsAnchored _ t now h = h

  ready_from-IsAnchored :
      (state : LifecycleState) (t : TrialLifecycle F) (now : ℤ)
      → IsAnchored t
      → IsAnchored (no_action (ready_from state t now)).1
  unfolding ready_from
  ready_from-IsAnchored starting t now h = record { timed = h.timed; anchors = tt }
  ready_from-IsAnchored _ t now h = h

  finish_from-IsAnchored :
      (state : LifecycleState) (t : TrialLifecycle F)
      → IsAnchored t
      → IsAnchored (no_action (finish_from state t)).1
  unfolding finish_from
  finish_from-IsAnchored finalizing t h = record { timed = h.timed; anchors = tt }
  finish_from-IsAnchored _ t h = h

  pub call-IsAnchored : (c : Call) (t : TrialLifecycle F) → IsAnchored t → IsAnchored (call c t).1
  unfolding call Experiment.start Experiment.mark_ready Experiment.tick Experiment.on_config_applied
      Experiment.fail Experiment.finish
  call-IsAnchored (start now) t h = start_from-IsAnchored t.state t now h
  call-IsAnchored (mark_ready now) t h = ready_from-IsAnchored t.state t now h
  call-IsAnchored (tick now) t h = tick_in-IsAnchored t.state t now h
  call-IsAnchored (on_config_applied revision now) t h =
      applied_in-IsAnchored t.state t revision now h
  call-IsAnchored (fail message) t h = fail_from-IsAnchored t.state t message h
  call-IsAnchored finish t h = finish_from-IsAnchored t.state t h

  pub run_calls-IsAnchored :
      (cs : List Call) (t : TrialLifecycle F) → IsAnchored t → IsAnchored (run_calls cs t)
  unfolding run_calls
  run_calls-IsAnchored [] t h = h
  run_calls-IsAnchored (c ∷ cs) t h = run_calls-IsAnchored cs (call c t).1 (call-IsAnchored c t h)

  pub init-IsAnchored : (s : ScenarioConfig F) → IsTimed s → IsAnchored (init s)
  unfolding init
  init-IsAnchored s d = record { timed = d; anchors = tt }
