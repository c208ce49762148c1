-- ===== src/Tests/Trial.antt =====
-- A dropout trial: core/experiment.py.
use ros2_resilience.Prelude.{
  ℕ, pos, ◌*◌, ◌≤◌, ◌≡◌, refl, arith, List, [], ◌∷◌, some, none, Option, true,
}
use ros2_resilience.Python.Float.{seconds_to_ns}
use ros2_resilience.Python.Result.{ok}
use ros2_resilience.Core.Scenario.{ScenarioConfig, dropout, RecoveryExpectation, RobotExpectation}
use ros2_resilience.Core.Experiment.{
  TrialLifecycle, Action, observing, activating, finalizing, tick, init,
}
use ros2_resilience.Core.Experiment.Calls.{Call, IsTimed, run_calls}
use ros2_resilience.Core.Experiment.Actions.{
  rank, is_activate, is_deactivate, is_finish, count_returned, run_calls-forward,
  actions_at_most_once,
}
use ros2_resilience.Core.Experiment.Ending.{tick_returns, observing_ends}
use ros2_resilience.Tests.Numbers.{Fixed, finite, Fixed-Float}

-- thousandths
abbrev pub milli : ℕ → Fixed
milli n = finite (pos (n * 1_000_000))

abbrev pub recovery : RecoveryExpectation Fixed
recovery = record {
  action = "stop";
  command_within_sec = milli 200;
  observed_within_sec = milli 300;
}

abbrev pub robot : RobotExpectation Fixed
robot = record {
  linear_velocity_below_mps = milli 20;
  angular_velocity_below_rad_s = milli 20;
  within_sec = milli 2000;
  hold_sec = milli 500;
}

abbrev pub scenario : ScenarioConfig Fixed
scenario = record {
  schema_version = pos 1;
  name = "dropout_burst";
  system = record {
    input_topic = "/odom_raw";
    output_topic = "/odom";
    message_type = "nav_msgs/msg/Odometry";
    command_topic = "/cmd_vel";
    robot = record {
      publish_rate_hz = milli 20_000;
      initial_linear_velocity_mps = milli 200;
      initial_angular_velocity_rad_s = milli 0;
    };
  };
  experiment = record {
    seed = 42;
    readiness_timeout_sec = milli 10_000;
    healthy_baseline_sec = milli 3000;
    observation_after_activation_sec = milli 6000;
  };
  fault = record {
    type = dropout;
    parameters = record {
      drop_probability = some (milli 1000);
      delay_sec = none;
      jitter_sec = none;
    };
    duration_sec = milli 2000;
  };
  watchdog = record {
    max_age_sec = milli 500;
    expected_rate_hz = milli 20_000;
    loss_window_sec = milli 1000;
    max_loss_fraction = milli 500;
    check_period_sec = milli 50;
    recovery = "stop";
  };
  expect = record {
    no_violation_before_fault = true;
    fault = some (record { observable = true; within_sec = milli 1000 });
    watchdog = some (record { violation = "loss_fraction_exceeded"; within_sec = milli 2000 });
    recovery = some recovery;
    robot = some robot;
  };
}

readiness_lem : seconds_to_ns (milli 10_000) ≡ ok (pos 10_000_000_000)
unfolding Fixed-Float seconds_to_ns
readiness_lem = refl

scenario-IsTimed : IsTimed scenario
unfolding Fixed-Float seconds_to_ns
scenario-IsTimed = record {
  readiness_ns = pos 10_000_000_000;
  readiness_timed = readiness_lem;
  baseline_ns = pos 3_000_000_000;
  baseline_timed = refl;
  observation_ns = pos 6_000_000_000;
  observation_timed = refl;
  duration_ns = pos 2_000_000_000;
  duration_timed = refl;
}

abbrev calls : List Call
calls =
    Call.start (pos 0)
    ∷ Call.mark_ready (pos 1_000_000_000)
    ∷ Call.mark_ready (pos 1_000_000_001)
    ∷ Call.tick (pos 4_000_000_000)
    ∷ Call.on_config_applied (pos 1) (pos 4_100_000_000)
    ∷ Call.tick (pos 6_200_000_000)
    ∷ Call.tick (pos 10_200_000_000)
    ∷ Call.finish
    ∷ []

tick_returns_example :
    (a : Option Action) × ((tick (run_calls calls (init scenario)) (pos 11_000_000_000)).0 ≡ ok a)
tick_returns_example = tick_returns scenario scenario-IsTimed calls (pos 11_000_000_000)

abbrev watched : TrialLifecycle Fixed
watched = record {
  scenario = scenario;
  state = observing;
  starting_since_ns = some (pos 0);
  baseline_start_ns = some (pos 1_000_000_000);
  activation_requested_ns = some (pos 4_000_000_000);
  activation_ns = some (pos 4_100_000_000);
  deactivation_requested_ns = none;
  observation_deadline_ns = some (pos 10_100_000_000);
  infrastructure_error = none;
}

abbrev waiting : TrialLifecycle Fixed
waiting = record watched {
  state = activating;
  activation_ns = none;
  observation_deadline_ns = none;
}

observing_ends_example :
    (tick (tick watched (pos 10_100_000_000)).1 (pos 10_200_000_000)).1.state ≡ finalizing
observing_ends_example =
    observing_ends watched (pos 10_100_000_000) (pos 10_100_000_000) (pos 10_200_000_000)
      scenario-IsTimed refl refl (omega arith) (omega arith)

run_calls-forward_example : rank observing ≤ rank (run_calls calls watched).state
run_calls-forward_example = run_calls-forward calls watched

actions_at_most_once_example :
    (count_returned is_activate calls (init scenario) ≤ 1)
    × (count_returned is_deactivate calls (init scenario) ≤ 1)
    × (count_returned is_finish calls (init scenario) ≤ 1)
actions_at_most_once_example = actions_at_most_once scenario calls
