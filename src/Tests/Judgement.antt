-- ===== src/Tests/Judgement.antt =====
-- The evidence of a dropout trial, and the verdict on it: core/metrics.py and core/assertions.py.
use ros2_resilience.Prelude.{
  ℕ, pos, ◌+ℤ◌, ◌≡◌, ◌≢◌, refl, List, [], ◌∷◌, map, filter, any, some, none, true, not, ◌&&◌,
}
use ros2_resilience.Python.Float.{seconds_to_ns}
use ros2_resilience.Python.Result.{ok}
use ros2_resilience.Python.Sorting.{sorted}
use ros2_resilience.Core.Events.{
  Event, EventKind, Slot, recovery_published, command_observed, raw_odometry,
}
use ros2_resilience.Core.Metrics.{
  from_time, stopped_from, in_hold, is_moving, receipt_of, stop_hold_broken_at_sec,
}
use ros2_resilience.Core.Checks.{AssertionResult, AssertionType, Timeline}
use ros2_resilience.Core.Assertions.{
  check_recovery_command_published, check_recovery_command_observed, evaluate_scenario,
}
use ros2_resilience.Core.Complete.{IsJudgeable, fault_is_judged}
use ros2_resilience.Core.Evidence.{delay_threshold_ns}
use ros2_resilience.Core.Verdict.{
  within, is_covered, is_none, published_in_time, observed_in_time, hold_is_kept,
}
use ros2_resilience.Tests.Numbers.{Fixed, Fixed-Float, Fixed-IsFloat}
use ros2_resilience.Tests.Trial.{milli, recovery, robot, scenario}

abbrev event : EventKind → ℕ → Fixed → Event Fixed
event kind receipt velocity = record {
  event_id = "e";
  trial_id = "t";
  source = "observer";
  kind = kind;
  receipt_ns = receipt;
  payload = record {
    linear_x = some velocity;
    angular_z = some (milli 0);
    stamp_ns = none;
    reason = none;
    dropped = Slot.missing;
  };
  occurrence_ns = none;
  occurrence_domain = none;
}

-- not in the order of receipt
abbrev events : List (Event Fixed)
events =
    event raw_odometry 5_000_000_000 (milli 200)
    ∷ event command_observed 4_750_000_000 (milli 0)
    ∷ event recovery_published 4_700_000_000 (milli 0)
    ∷ event raw_odometry 5_060_000_000 (milli 10)
    ∷ event raw_odometry 5_120_000_000 (milli 0)
    ∷ []

abbrev timeline : Timeline
timeline = record {
  baseline_start_ns = pos 1_000_000_000;
  activation_ns = pos 4_100_000_000;
  deactivation_ns = some (pos 6_200_000_000);
  observation_deadline_ns = pos 10_100_000_000;
}

published_in_time_example :
    (result : AssertionResult Fixed) × (check_recovery_command_published scenario events
        (some (pos 4_600_000_000))
      ≡ ok result)
    × (result.passed
        ≡ any
            (λ e.
              from_time recovery_published (pos 4_600_000_000) e
              && within (pos 4_600_000_000) (milli 200) e)
            events)
published_in_time_example =
    published_in_time Fixed-IsFloat scenario events (pos 4_600_000_000) recovery refl

observed_in_time_example :
    (result : AssertionResult Fixed) × (check_recovery_command_observed scenario events
        (some (pos 4_600_000_000))
      ≡ ok result)
    × (result.passed
        ≡ any
            (λ e.
              stopped_from command_observed (pos 4_600_000_000) (milli 20) (milli 20) e
              && within (pos 4_600_000_000) (milli 300) e)
            events)
observed_in_time_example =
    observed_in_time Fixed-IsFloat scenario events (pos 4_600_000_000) recovery robot refl refl

hold_is_kept_example :
    let samples : List (Event Fixed) = filter (in_hold 5_060_000_000 (pos 5_200_000_000)) events in
    is_none (
      stop_hold_broken_at_sec events 5_060_000_000
        (pos 5_200_000_000)
        (milli 20)
        (milli 20)
        (pos 50_000_000))
    ≡ (is_covered
          (pos 50_000_000 +ℤ pos 50_000_000 +ℤ pos 50_000_000)
          (pos 5_200_000_000)
          5_060_000_000
          (map receipt_of (sorted receipt_of samples))
        && not (any (is_moving (milli 20) (milli 20)) samples))
hold_is_kept_example =
    hold_is_kept events 5_060_000_000 (pos 5_200_000_000) (milli 20) (milli 20) (pos 50_000_000)

uncounted : (event raw_odometry 0 (milli 0)).payload.dropped ≢ Slot.null
uncounted same = cc

scenario-IsJudgeable : IsJudgeable scenario events
unfolding Fixed-Float seconds_to_ns delay_threshold_ns
scenario-IsJudgeable = record {
  fault = record { observable = true; within_sec = milli 1000 };
  fault_set = refl;
  fault_ns = pos 1_000_000_000;
  fault_timed = refl;
  threshold_ns = pos 0;
  threshold_timed = refl;
  watchdog = record { violation = "loss_fraction_exceeded"; within_sec = milli 2000 };
  watchdog_set = refl;
  watchdog_ns = pos 2_000_000_000;
  watchdog_timed = refl;
  recovery = recovery;
  recovery_set = refl;
  robot = robot;
  robot_set = refl;
  hold_ns = pos 500_000_000;
  hold_timed = refl;
  period_ns = pos 50_000_000;
  period_timed = refl;
  counted = (uncounted, (uncounted, (uncounted, (uncounted, (uncounted, tt)))));
}

fault_is_judged_example :
    (results : List (AssertionResult Fixed)) × (evaluate_scenario scenario events timeline
      ≡ ok results)
    × (map (λ r. r.type) results
        ≡ AssertionType.no_early_violation ∷ AssertionType.fault_observable
          ∷ AssertionType.watchdog_violation_detected ∷ AssertionType.recovery_command_published
          ∷ AssertionType.recovery_command_observed ∷ AssertionType.robot_stopped
          ∷ AssertionType.robot_stopped_held ∷ [])
fault_is_judged_example = fault_is_judged scenario events timeline scenario-IsJudgeable refl
