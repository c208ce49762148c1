-- ===== src/Core/Assertions.antt =====
-- ros2_resilience/core/assertions.py: the checks of the recovery and of the robot, and the
-- verdict on the evidence of a trial. The texts of the
-- reasons are not modelled.
use ros2_resilience.Prelude.{
  ℕ, ℤ, pos, ◌+ℤ◌, true, false, Option, none, some, List, [], ◌∷◌, if◌then◌else◌,
}
use ros2_resilience.Python.Float.{Float, seconds_to_ns, nanos_per_sec}
use ros2_resilience.Python.Result.{Result, ok, ◌>>=◌}
use ros2_resilience.Core.Events.{Event}
use ros2_resilience.Core.Metrics.{
  recovery_command_latency_sec, command_observation_latency_sec, time_to_stop_sec,
  stop_hold_broken_at_sec,
}
use ros2_resilience.Core.Scenario.{ScenarioConfig, RobotExpectation, is_healthy_control}
use ros2_resilience.Core.Checks.{
  AssertionResult, Timeline, recovery_command_published, recovery_command_observed, robot_stopped,
  robot_stopped_held, result_of, measured, assert_set, in_time, first_violation_receipt_ns,
  check_no_early_violation, check_no_violation_during_observation, check_no_recovery_command,
  check_fault_observable, check_watchdog_violation_detected,
}

module _ {F : Type 0} ⦃f : Float F⦄ where
  -- `_recovery_command_published`, once the expectation is known
  unfoldable pub published_after : List (Event F) → F → Option ℤ → AssertionResult F
  unfolding in_time recovery_command_latency_sec
  published_after events limit none = result_of recovery_command_published false
  published_after events limit (some detection) =
      in_time recovery_command_published limit (recovery_command_latency_sec events detection)

  unfoldable pub check_recovery_command_published :
      ScenarioConfig F → List (Event F) → Option ℤ → Result (AssertionResult F)
  unfolding published_after
  check_recovery_command_published s events detection = do
    expected ← assert_set s.expect.recovery
    ok (published_after events expected.command_within_sec detection)

  unfoldable pub observed_after :
      RobotExpectation F → List (Event F) → F → Option ℤ → AssertionResult F
  unfolding in_time command_observation_latency_sec
  observed_after robot events limit none = result_of recovery_command_observed false
  observed_after robot events limit (some detection) = in_time recovery_command_observed limit (
      command_observation_latency_sec events detection robot.linear_velocity_below_mps
        robot.angular_velocity_below_rad_s)

  -- `_recovery_command_observed`
  unfoldable pub check_recovery_command_observed :
      ScenarioConfig F → List (Event F) → Option ℤ → Result (AssertionResult F)
  unfolding observed_after
  check_recovery_command_observed s events detection = do
    expected ← assert_set s.expect.recovery
    robot ← assert_set s.expect.robot
    ok (observed_after robot events expected.observed_within_sec detection)

  abbrev pub seconds? : Option (F × ℕ) → Option F
  seconds? none = none
  seconds? (some (seconds, receipt)) = some seconds

  -- `_robot_stopped`, on the expectation of the robot, which its callers have found set
  unfoldable pub check_robot_stopped :
      RobotExpectation F → List (Event F) → Timeline → AssertionResult F
  unfolding in_time time_to_stop_sec
  check_robot_stopped robot events timeline = in_time robot_stopped robot.within_sec (
      seconds? (
        time_to_stop_sec events timeline.activation_ns robot.linear_velocity_below_mps
          robot.angular_velocity_below_rad_s))

  unfoldable pub held : F → Option F → AssertionResult F
  held limit none = record {
    type = robot_stopped_held;
    passed = true;
    observed_value = none;
    threshold = some limit;
  }
  held limit (some broken_at) = measured robot_stopped_held false broken_at limit

  unfoldable pub held_after :
      ScenarioConfig F
      → RobotExpectation F
      → List (Event F)
      → Option (F × ℕ)
      → Result (AssertionResult F)
  unfolding held stop_hold_broken_at_sec seconds_to_ns
  held_after s robot events none = ok (result_of robot_stopped_held false)
  held_after s robot events (some (seconds, stop_ns)) = do
    hold ← seconds_to_ns robot.hold_sec
    period ← f.round (f.div (f.of_int (pos nanos_per_sec)) s.system.robot.publish_rate_hz)
    ok (
        held robot.hold_sec (
          stop_hold_broken_at_sec events stop_ns (pos stop_ns +ℤ hold)
            robot.linear_velocity_below_mps robot.angular_velocity_below_rad_s period))

  -- `_robot_stopped_held`
  unfoldable pub check_robot_stopped_held :
      ScenarioConfig F → RobotExpectation F → List (Event F) → Timeline → Result (AssertionResult F)
  unfolding held_after time_to_stop_sec
  check_robot_stopped_held s robot events timeline = held_after s robot events (
      time_to_stop_sec events timeline.activation_ns robot.linear_velocity_below_mps
        robot.angular_velocity_below_rad_s)

  -- the optional last result of a healthy control
  unfoldable pub stopped_results :
      Option (RobotExpectation F) → List (Event F) → Timeline → List (AssertionResult F)
  stopped_results none events timeline = []
  stopped_results (some robot) events timeline = check_robot_stopped robot events timeline ∷ []

  -- `_evaluate_healthy_control`
  unfoldable pub evaluate_healthy_control :
      ScenarioConfig F → List (Event F) → Timeline → List (AssertionResult F)
  unfolding stopped_results check_robot_stopped check_no_violation_during_observation
      check_no_recovery_command
  evaluate_healthy_control s events timeline =
      check_no_violation_during_observation events timeline
      ∷ check_no_recovery_command events timeline
      ∷ stopped_results s.expect.robot events timeline

  -- the optional last results of a fault scenario
  unfoldable pub robot_results :
      ScenarioConfig F
      → Option (RobotExpectation F)
      → List (Event F)
      → Timeline
      → Result (List (AssertionResult F))
  unfolding check_robot_stopped_held
  robot_results s none events timeline = ok []
  robot_results s (some robot) events timeline = do
    stopped_held ← check_robot_stopped_held s robot events timeline
    ok (check_robot_stopped robot events timeline ∷ stopped_held ∷ [])

  -- `_evaluate_fault_scenario`
  unfoldable pub evaluate_fault_scenario :
      ScenarioConfig F → List (Event F) → Timeline → Result (List (AssertionResult F))
  unfolding check_no_early_violation check_fault_observable check_watchdog_violation_detected
      check_recovery_command_published check_recovery_command_observed robot_results
      first_violation_receipt_ns
  evaluate_fault_scenario s events timeline = do
    _ ← assert_set s.expect.fault
    _ ← assert_set s.expect.watchdog
    _ ← assert_set s.expect.recovery
    observed ← check_fault_observable s events timeline
    violation ← check_watchdog_violation_detected s events timeline
    let detection = first_violation_receipt_ns events timeline.activation_ns
    published ← check_recovery_command_published s events detection
    seen ← check_recovery_command_observed s events detection
    robot ← robot_results s s.expect.robot events timeline
    ok (check_no_early_violation events timeline ∷ observed ∷ violation ∷ published ∷ seen ∷ robot)

  unfoldable pub evaluate_scenario :
      ScenarioConfig F → List (Event F) → Timeline → Result (List (AssertionResult F))
  unfolding evaluate_healthy_control evaluate_fault_scenario
  evaluate_scenario s events timeline =
      if is_healthy_control s
      then ok (evaluate_healthy_control s events timeline)
      else evaluate_fault_scenario s events timeline
