-- ===== src/Tests/Stops.antt =====
-- A passed trial in which the robot has to stop: ros/experiment_runner_node.py.
use ros2_resilience.Prelude.{ℤ, pos, ◌≡◌, refl, true, ◌&&◌, List, [], ◌∷◌, ◌++◌, some, none, any}
use ros2_resilience.Python.Float.{to_seconds}
use ros2_resilience.Python.Result.{ok}
use ros2_resilience.Core.Assertions.{evaluate_scenario}
use ros2_resilience.Core.Checks.{AssertionResult, robot_stopped}
use ros2_resilience.Core.Events.{Event, raw_odometry, missing}
use ros2_resilience.Core.Metrics.{stopped_from}
use ros2_resilience.Core.Results.{TrialResult}
use ros2_resilience.Core.Scenario.{ScenarioConfig}
use ros2_resilience.Core.Verdict.{within}
use ros2_resilience.Ros.Runner.{Execution, run_trial}
use ros2_resilience.Ros.Runner.Stopping.{passed-stopped}
use ros2_resilience.Tests.Batches.{control, lifecycle, passed_trial}
use ros2_resilience.Tests.Numbers.{Fixed, Fixed-Float, Fixed-IsFloat}
use ros2_resilience.Tests.Trial.{milli, robot}

abbrev parked : ScenarioConfig Fixed
parked = record control { expect = record control.expect { robot = some robot } }

abbrev sample : Event Fixed
sample = record {
  event_id = "5e1f-0000-1";
  trial_id = "5e1f-0000";
  source = "observer";
  kind = raw_odometry;
  receipt_ns = 4_500_000_000;
  payload = record {
    linear_x = some (milli 1);
    angular_z = some (milli 0);
    stamp_ns = some (pos 4_499_000_000);
    reason = none;
    dropped = missing;
  };
  occurrence_ns = none;
  occurrence_domain = none;
}

abbrev execution : Execution Fixed
execution id index seed = ok (lifecycle, sample ∷ [])

abbrev result : List (AssertionResult Fixed) → TrialResult Fixed
result assertions = record passed_trial { assertions = assertions; events = sample ∷ [] }

abbrev stopped : TrialResult Fixed
stopped = result (
    passed_trial.assertions
    ++ (record {
      type = robot_stopped;
      passed = true;
      observed_value = some (milli 500);
      threshold = some (milli 2000);
    }
        ∷ []))

stopped_lem : run_trial execution parked "5e1f-0000" 0 (pos 42) ≡ ok stopped
unfolding run_trial evaluate_scenario Fixed-Float to_seconds
stopped_lem = refl

passed-stopped_example :
    (activation : ℤ) × (stopped.activation_ns ≡ some activation)
    × (any
          (λ e.
            stopped_from raw_odometry activation robot.linear_velocity_below_mps
              robot.angular_velocity_below_rad_s e
            && within activation robot.within_sec e)
          stopped.events
        ≡ true)
passed-stopped_example =
    passed-stopped Fixed-IsFloat execution parked "5e1f-0000" 0 (pos 42) stopped robot stopped_lem
      refl refl
