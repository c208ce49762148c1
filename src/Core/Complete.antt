-- ===== src/Core/Complete.antt =====
-- Which results core/assertions.py returns for a fault scenario, and when none of its `assert`s fails.
use ros2_resilience.Prelude.{
  ℕ, pos, ◌+ℤ◌, ℤ, ◌≡◌, ◌≢◌, refl, ap, ◌∙◌, Bool, false, Bool-cases, inl, inr, Option, none, some,
  List, [], ◌∷◌, map, filter, if◌then◌else◌, All, All-filter,
}
use ros2_resilience.Python.Float.{Float, seconds_to_ns, nanos_per_sec}
use ros2_resilience.Python.Result.{Result, ok, ◌>>=◌}
use ros2_resilience.Core.Events.{
  Event, Slot, missing, null, value, raw_odometry, is_kind, injector_counters,
}
use ros2_resilience.Core.Evidence.{
  dropout_observable, latency_observable, delay_threshold_ns, no_drops, is_empty, last?,
  not_advanced,
}
use ros2_resilience.Core.Scenario.{
  ScenarioConfig, FaultExpectation, WatchdogExpectation, RecoveryExpectation, RobotExpectation,
  FaultKind, is_healthy_control,
}
use ros2_resilience.Core.Checks.{
  AssertionResult, AssertionType, Timeline, observable, check_fault_observable,
  check_watchdog_violation_detected, between, result_of, assert_set, first_violation_receipt_ns,
  check_no_early_violation, in_time, detected,
}
use ros2_resilience.Core.Assertions.{
  evaluate_fault_scenario, evaluate_healthy_control, evaluate_scenario, check_robot_stopped_held,
  check_recovery_command_published, check_recovery_command_observed, published_after,
  observed_after, held, held_after, robot_results, check_robot_stopped,
}

abbrev pub IsCounted : {F : Type 0} → Event F → Type 0
IsCounted e = e.payload.dropped ≢ null

no_drops_returns : (d : Slot ℤ) → d ≢ null → (b : Bool) × (no_drops d ≡ ok b)
no_drops_returns missing h = (_, refl)
no_drops_returns null h = absurd (h refl)
no_drops_returns (value z) h = (_, refl)

module _ {F : Type 0} where
  not_advanced-counted :
      (es : List (Event F)) → All IsCounted es → (b : Bool) × (not_advanced (last? es) ≡ ok b)
  not_advanced-counted [] h = (_, refl)
  not_advanced-counted (e ∷ []) h = no_drops_returns e.payload.dropped h.0
  not_advanced-counted (e ∷ e' ∷ es) h = not_advanced-counted (e' ∷ es) h.1

module _ {F : Type 0} ⦃f : Float F⦄ where
  dropout_observable_returns :
      (window : List (Event F))
      → All IsCounted window
      → (b : Bool) × (dropout_observable window ≡ ok b)
  unfolding dropout_observable
  dropout_observable_returns window h =
      let counters = filter (λ (e : Event F). is_kind e.kind injector_counters) window in
      let (stuck, known) = not_advanced-counted counters (All-filter IsCounted _ window h) in
      let raw = filter (λ (e : Event F). is_kind e.kind raw_odometry) window in
      elim (Bool-cases (is_empty raw)) [
        | inl silent ↦ rw silent (_, refl)
        | inr heard ↦ rw (heard, known) (_, refl)
      ]

  observable_returns :
      (s : ScenarioConfig F) (events window : List (Event F)) {threshold : ℤ} (kind : FaultKind)
      → delay_threshold_ns s ≡ ok threshold
      → All IsCounted window
      → (b : Bool) × (observable kind s events window ≡ ok b)
  unfolding observable latency_observable
  observable_returns s events window FaultKind.healthy t h = (false, refl)
  observable_returns s events window FaultKind.stale t h = (_, refl)
  observable_returns s events window FaultKind.latency t h = rw t (_, refl)
  observable_returns s events window FaultKind.dropout t h = dropout_observable_returns window h

-- What the program's own scenarios have: all expectations, durations that are finite in nanoseconds,
-- and counters that are numbers.
pub record IsJudgeable {F : Type 0} ⦃f : Float F⦄ (s : ScenarioConfig F) (events : List (Event F))
    : Type 0 where
  pub fault : FaultExpectation F
  pub fault_set : s.expect.fault ≡ some fault
  pub fault_ns : ℤ
  pub fault_timed : seconds_to_ns fault.within_sec ≡ ok fault_ns
  pub threshold_ns : ℤ
  pub threshold_timed : delay_threshold_ns s ≡ ok threshold_ns
  pub watchdog : WatchdogExpectation F
  pub watchdog_set : s.expect.watchdog ≡ some watchdog
  pub watchdog_ns : ℤ
  pub watchdog_timed : seconds_to_ns watchdog.within_sec ≡ ok watchdog_ns
  pub recovery : RecoveryExpectation F
  pub recovery_set : s.expect.recovery ≡ some recovery
  pub robot : RobotExpectation F
  pub robot_set : s.expect.robot ≡ some robot
  pub hold_ns : ℤ
  pub hold_timed : seconds_to_ns robot.hold_sec ≡ ok hold_ns
  pub period_ns : ℤ
  pub period_timed :
      f.round (f.div (f.of_int (pos nanos_per_sec)) s.system.robot.publish_rate_hz) ≡ ok period_ns
  pub counted : All IsCounted events

-- the chain of `evaluate_fault_scenario`, where every call returns
collected :
    {A B C R : Type 0} {a : A} {b : B} {c : C} {o v p w x : R} {xs : List R} (a? : Result A)
    (b? : Result B) (c? : Result C) (o? v? p? w? : Result R) (xs? : Result (List R))
    → a? ≡ ok a
    → b? ≡ ok b
    → c? ≡ ok c
    → o? ≡ ok o
    → v? ≡ ok v
    → p? ≡ ok p
    → w? ≡ ok w
    → xs? ≡ ok xs
    → (do
      _ ← a?
      _ ← b?
      _ ← c?
      o' ← o?
      v' ← v?
      p' ← p?
      w' ← w?
      xs' ← xs?
      ok (x ∷ o' ∷ v' ∷ p' ∷ w' ∷ xs'))
      ≡ ok (x ∷ o ∷ v ∷ p ∷ w ∷ xs)
collected a? b? c? o? v? p? w? xs? ha hb hc ho hv hp hw hx =
    rw (ha, hb, hc, ho, hv, hp, hw, hx) refl

module _ {F : Type 0} ⦃f : Float F⦄ where
  -- a check that returns a result of one type
  abbrev Gives : AssertionType → Result (AssertionResult F) → Type 0
  Gives t r = (result : AssertionResult F) × (r ≡ ok result) × (result.type ≡ t)

  in_time-type :
      (t : AssertionType) (limit : F) (taken : Option F) → (in_time t limit taken).type ≡ t
  unfolding in_time
  in_time-type t limit none = refl
  in_time-type t limit (some x) = refl

  detected-type :
      (activation : ℤ) (limit : F) (e : Option (Event F))
      → (detected activation limit e).type ≡ AssertionType.watchdog_violation_detected
  unfolding detected
  detected-type activation limit none = refl
  detected-type activation limit (some e) = refl

  held-type :
      (limit : F) (broken : Option F) → (held limit broken).type ≡ AssertionType.robot_stopped_held
  unfolding held
  held-type limit none = refl
  held-type limit (some x) = refl

  module _ (s : ScenarioConfig F) (events : List (Event F)) (timeline : Timeline)
      (j : IsJudgeable s events) where
    check_fault_observable-Gives :
        Gives AssertionType.fault_observable (check_fault_observable s events timeline)
    unfolding check_fault_observable
    check_fault_observable-Gives =
        let from_ns = timeline.activation_ns in
        let window = filter (between from_ns (from_ns +ℤ j.fault_ns)) events in
        let (b, seen) =
          observable_returns s events window s.fault.type j.threshold_timed
            (All-filter IsCounted _ events j.counted) in
        let timed : check_fault_observable s events timeline ≡ (
            observable s.fault.type s events window >>= λ b.
            ok (result_of AssertionType.fault_observable b)) =
          ap
            (λ o. assert_set o >>= λ e. seconds_to_ns e.within_sec >>= λ n.
              observable s.fault.type s events (filter (between from_ns (from_ns +ℤ n)) events)
              >>= λ b. ok (result_of AssertionType.fault_observable b))
            j.fault_set
          ∙ ap
              (λ r. r >>= λ n.
                observable s.fault.type s events (filter (between from_ns (from_ns +ℤ n)) events)
                >>= λ b. ok (result_of AssertionType.fault_observable b))
              j.fault_timed in
        (_, timed ∙ ap (λ r. r >>= λ b. ok (result_of AssertionType.fault_observable b)) seen, refl)

    check_watchdog_violation_detected-Gives :
        Gives AssertionType.watchdog_violation_detected
          (check_watchdog_violation_detected s events timeline)
    unfolding check_watchdog_violation_detected
    check_watchdog_violation_detected-Gives =
        rw (j.watchdog_set, j.watchdog_timed) (_, refl, detected-type _ _ _)

    published-Gives :
        (d : Option ℤ)
        → Gives AssertionType.recovery_command_published
            (check_recovery_command_published s events d)
    unfolding check_recovery_command_published published_after
    published-Gives none = rw j.recovery_set (_, refl, refl)
    published-Gives (some d) = rw j.recovery_set (_, refl, in_time-type _ _ _)

    observed-Gives :
        (d : Option ℤ)
        → Gives AssertionType.recovery_command_observed (check_recovery_command_observed s events d)
    unfolding check_recovery_command_observed observed_after
    observed-Gives none = rw (j.recovery_set, j.robot_set) (_, refl, refl)
    observed-Gives (some d) = rw (j.recovery_set, j.robot_set) (_, refl, in_time-type _ _ _)

    held_after-Gives :
        (stopped : Option (F × ℕ))
        → Gives AssertionType.robot_stopped_held (held_after s j.robot events stopped)
    unfolding held_after
    held_after-Gives none = (_, refl, refl)
    held_after-Gives (some (x, n)) = rw (j.hold_timed, j.period_timed) (_, refl, held-type _ _)

    check_robot_stopped_held-Gives :
        Gives AssertionType.robot_stopped_held (check_robot_stopped_held s j.robot events timeline)
    unfolding check_robot_stopped_held
    check_robot_stopped_held-Gives = held_after-Gives _

    check_robot_stopped-type :
        (check_robot_stopped j.robot events timeline).type ≡ AssertionType.robot_stopped
    unfolding check_robot_stopped
    check_robot_stopped-type = in_time-type _ _ _

    robot_results_lem :
        (held : AssertionResult F)
        → check_robot_stopped_held s j.robot events timeline ≡ ok held
        → robot_results s s.expect.robot events timeline
          ≡ ok (check_robot_stopped j.robot events timeline ∷ held ∷ [])
    unfolding robot_results
    robot_results_lem held h =
        ap (λ o. robot_results s o events timeline) j.robot_set
        ∙ ap (λ r. r >>= λ x. ok (check_robot_stopped j.robot events timeline ∷ x ∷ [])) h

    -- A fault scenario with all its expectations, whose durations are finite in nanoseconds, on evidence
    -- whose injector counters are numbers, is judged without raising, and the seven results come in
    -- this order.
    pub fault_is_judged :
        is_healthy_control s ≡ false
        → (results : List (AssertionResult F)) × (evaluate_scenario s events timeline ≡ ok results)
          × (map (λ r. r.type) results
              ≡ AssertionType.no_early_violation ∷ AssertionType.fault_observable
                ∷ AssertionType.watchdog_violation_detected
                ∷ AssertionType.recovery_command_published ∷ AssertionType.recovery_command_observed
                ∷ AssertionType.robot_stopped ∷ AssertionType.robot_stopped_held ∷ [])
    unfolding evaluate_scenario check_no_early_violation
    fault_is_judged faulty =
        let d = first_violation_receipt_ns events timeline.activation_ns in
        let (r1, e1, t1) = check_fault_observable-Gives in
        let (r2, e2, t2) = check_watchdog_violation_detected-Gives in
        let (r3, e3, t3) = published-Gives d in
        let (r4, e4, t4) = observed-Gives d in
        let (r5, e5, t5) = check_robot_stopped_held-Gives in
        let early = check_no_early_violation events timeline in
        let stopped = check_robot_stopped j.robot events timeline in
        (
          early ∷ r1 ∷ r2 ∷ r3 ∷ r4 ∷ stopped ∷ r5 ∷ [],
          ap
                (λ b.
                  if b
                  then ok (evaluate_healthy_control s events timeline)
                  else evaluate_fault_scenario s events timeline)
                faulty
              ∙ collected _ _ _ _ _ _ _ _ (ap assert_set j.fault_set) (ap assert_set j.watchdog_set)
                  (ap assert_set j.recovery_set) e1 e2 e3 e4 (robot_results_lem r5 e5),
          rw (t1, t2, t3, t4, check_robot_stopped-type, t5) refl,
        )
