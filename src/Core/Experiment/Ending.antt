-- ===== src/Core/Experiment/Ending.antt =====
-- A tick of core/experiment.py returns, and ticks that are late enough end the trial.
use ros2_resilience.Prelude.{
  ◌≡◌, refl, ap, ◌∙◌, ◌⊎◌, inl, inr, Bool, true, false, Bool-cases, Option, none, some, List,
  String, ℤ, arith, leb_ℤ, ◌-ℤ◌, ◌≤ℤ◌,
}
use ros2_resilience.Python.Float.{Float}
use ros2_resilience.Python.Result.{ok}
use ros2_resilience.Core.Scenario.{ScenarioConfig, is_healthy_control}
use ros2_resilience.Core.Experiment
use ros2_resilience.Core.Experiment.{
  LifecycleState, created, starting, baselining, activating, observing, finalizing, finished,
  Action, TrialLifecycle, Outcome, init, observe_from, tick, tick_in, fail_from, fail_if,
  activate_if, observe_until, observe_to, elapsed, duration_over, plain, activate_fault,
  finish_trial,
}
use ros2_resilience.Core.Experiment.Calls.{
  Call, IsTimed, Anchors, HasTime, run_calls, run_calls-IsAnchored, init-IsAnchored,
}

-- the clock has run for at least `length` since a time that is set
elapsed_lem :
    (since : Option ℤ) (length now : ℤ)
    → HasTime since
    → (b : Bool) × (elapsed since (ok length) now ≡ ok b)
unfolding elapsed
elapsed_lem none length now h = absurd h
elapsed_lem (some t) length now h = (leb_ℤ length (now -ℤ t), refl)

module _ {F : Type 0} ⦃f : Float F⦄ where
  fail_from_returns :
      (t : TrialLifecycle F) (state : LifecycleState) (message : String)
      → (state ≡ starting) ⊎ (state ≡ activating)
      → (a : Option Action) × ((fail_from state t message).0 ≡ ok a)
  unfolding fail_from
  fail_from_returns t finalizing message h = absurd (ground arith)
  fail_from_returns t finished message h = absurd (ground arith)
  fail_from_returns t _ message h = (_, refl)

  fail_if_returns :
      (b : Bool) (message : String) (t : TrialLifecycle F)
      → (t.state ≡ starting) ⊎ (t.state ≡ activating)
      → (a : Option Action) × ((fail_if (ok b) message t).0 ≡ ok a)
  unfolding fail_if Experiment.fail
  fail_if_returns true message t h = fail_from_returns t t.state message h
  fail_if_returns false message t h = (none, refl)

  activate_if_returns :
      (b : Bool) (t : TrialLifecycle F) (now : ℤ)
      → IsTimed t.scenario
      → (a : Option Action) × ((activate_if (ok b) t now).0 ≡ ok a)
  unfolding activate_if observe_from
  activate_if_returns false t now d = (none, refl)
  activate_if_returns true t now d = elim (Bool-cases (is_healthy_control t.scenario)) [
    | inl control ↦ (none, rw (control, d.observation_timed))
    | inr faulty ↦ (some (plain activate_fault), rw faulty)
  ]

  duration_over_returns :
      (control : Bool) (requested activation : Option ℤ) (s : ScenarioConfig F) (now : ℤ)
      → IsTimed s
      → (b : Bool) × (duration_over control requested activation s.fault.duration_sec now ≡ ok b)
  unfolding duration_over
  duration_over_returns true requested activation s now d = (false, refl)
  duration_over_returns false (some r) activation s now d = (false, refl)
  duration_over_returns false none none s now d = (false, refl)
  duration_over_returns false none (some since) s now d =
      rw d.duration_timed (elapsed_lem (some since) d.duration_ns now tt)

  observe_until_returns :
      (b : Bool) (deadline : ℤ) (t : TrialLifecycle F) (now : ℤ)
      → (a : Option Action) × ((observe_until (ok b) deadline t now).0 ≡ ok a)
  unfolding observe_until
  observe_until_returns true deadline t now = (_, refl)
  observe_until_returns false deadline t now = elim (Bool-cases (leb_ℤ deadline now)) [
    | inl over ↦ (some (plain finish_trial), rw over)
    | inr before ↦ (none, rw before)
  ]

  observe_to_returns :
      (deadline : Option ℤ) (t : TrialLifecycle F) (now : ℤ)
      → HasTime deadline
      → IsTimed t.scenario
      → (a : Option Action) × ((observe_to deadline t now).0 ≡ ok a)
  unfolding observe_to
  observe_to_returns none t now h d = absurd h
  observe_to_returns (some deadline) t now h d =
      let (b, over) =
        duration_over_returns (is_healthy_control t.scenario) t.deactivation_requested_ns
          t.activation_ns t.scenario now d in
      rw over (observe_until_returns b deadline t now)

  tick_in_returns :
      (state : LifecycleState) (t : TrialLifecycle F) (now : ℤ)
      → t.state ≡ state
      → Anchors state t
      → IsTimed t.scenario
      → (a : Option Action) × ((tick_in state t now).0 ≡ ok a)
  unfolding tick_in
  tick_in_returns starting t now at h d =
      let (b, test) = elapsed_lem t.starting_since_ns d.readiness_ns now h in
      rw (d.readiness_timed, test) (fail_if_returns b "readiness timeout" t (inl at))
  tick_in_returns baselining t now at h d =
      let (b, test) = elapsed_lem t.baseline_start_ns d.baseline_ns now h in
      rw (d.baseline_timed, test) (activate_if_returns b t now d)
  tick_in_returns activating t now at h d =
      let (b, test) = elapsed_lem t.activation_requested_ns d.readiness_ns now h in
      rw (d.readiness_timed, test)
        (fail_if_returns b "fault activation not acknowledged in time" t (inr at))
  tick_in_returns observing t now at h d = observe_to_returns t.observation_deadline_ns t now h.1 d
  tick_in_returns _ t now at h d = (none, refl)

  -- Of a scenario whose durations are finite in nanoseconds, after any sequence of calls, those that
  -- raise included, a tick does not raise: no assertion of the code fails.
  pub tick_returns :
      (s : ScenarioConfig F)
      → IsTimed s
      → (cs : List Call) (now : ℤ)
      → (a : Option Action) × ((tick (run_calls cs (init s)) now).0 ≡ ok a)
  unfolding tick
  tick_returns s d cs now =
      let t = run_calls cs (init s) in
      let h = run_calls-IsAnchored cs (init s) (init-IsAnchored s d) in
      tick_in_returns t.state t now refl h.anchors h.timed

  observe_until_ends :
      (b : Bool) (deadline : ℤ) (t : TrialLifecycle F) (now : ℤ)
      → t.state ≡ observing
      → deadline ≤ℤ now
      → let t' = (observe_until (ok b) deadline t now).1 in
        (t'.state ≡ finalizing)
        ⊎ ((t'.state ≡ observing)
            × (t'.deactivation_requested_ns ≡ some now)
            × (t'.observation_deadline_ns ≡ t.observation_deadline_ns)
            × (t'.scenario ≡ t.scenario))
  unfolding observe_until
  observe_until_ends true deadline t now at late = inr (at, refl, refl, refl)
  observe_until_ends false deadline t now at late =
      let over : leb_ℤ deadline now ≡ true = ground arith in rw over (inl refl)

  -- an observation whose deactivation has been requested ends at its deadline
  requested_ends :
      (deadline now since : ℤ) (t : TrialLifecycle F)
      → t.state ≡ observing
      → t.observation_deadline_ns ≡ some deadline
      → t.deactivation_requested_ns ≡ some since
      → deadline ≤ℤ now
      → (tick t now).1.state ≡ finalizing
  unfolding tick tick_in observe_to duration_over observe_until
  requested_ends deadline now since t at due asked late =
      let over : leb_ℤ deadline now ≡ true = ground arith in
      elim (Bool-cases (is_healthy_control t.scenario)) [
        | inl control ↦ rw (at, due, control, over)
        | inr faulty ↦ rw (at, due, faulty, asked, over)
      ]

  finalizing_stays :
      (t : TrialLifecycle F) (now : ℤ) → t.state ≡ finalizing → (tick t now).1.state ≡ finalizing
  unfolding tick tick_in
  finalizing_stays t now at = rw at

  observing_tick :
      (deadline now : ℤ) (t : TrialLifecycle F)
      → t.state ≡ observing
      → t.observation_deadline_ns ≡ some deadline
      → IsTimed t.scenario
      → (b : Bool) × ((tick t now).1 ≡ (observe_until (ok b) deadline t now).1)
  unfolding tick tick_in observe_to
  observing_tick deadline now t at due d =
      let (b, over) =
        duration_over_returns (is_healthy_control t.scenario) t.deactivation_requested_ns
          t.activation_ns t.scenario now d in
      (
        b,
        ap (λ state. (tick_in state t now).1) at
            ∙ ap (λ due_at. (observe_to due_at t now).1) due
            ∙ ap (λ test. (observe_until test deadline t now).1) over,
      )

  -- An observation ends: of two ticks at or after its deadline, whatever the fault and its duration,
  -- the second leaves the lifecycle in FINALIZING, if the duration is finite in nanoseconds.
  pub observing_ends :
      (t : TrialLifecycle F) (deadline now later : ℤ)
      → IsTimed t.scenario
      → t.state ≡ observing
      → t.observation_deadline_ns ≡ some deadline
      → deadline ≤ℤ now
      → deadline ≤ℤ later
      → (tick (tick t now).1 later).1.state ≡ finalizing
  observing_ends t deadline now later d at due late later_still =
      let (b, first) = observing_tick deadline now t at due d in
      let t' = (observe_until (ok b) deadline t now).1 in
      elim (observe_until_ends b deadline t now at late) [
        | inl done ↦ rw first (finalizing_stays t' later done)
        | inr (still, asked, due', same) ↦
            rw first (requested_ends deadline later now t' still (due' ∙ due) asked later_still)
      ]
