-- ===== src/Core/Serialized.antt =====
-- `asdict(scenario)` of ros2_resilience/ros/experiment_runner_node.py: a scenario as nested
-- mappings, under the names of the fields of core/scenario.py. The result document keeps it as
-- `scenario_config`.
use ros2_resilience.Prelude.{pos, String, Option, none, some}
use ros2_resilience.Python.Value.{
  Value, null, boolean, integer, floating, text, mapping, Entries, empty, entry,
}
use ros2_resilience.Core.Scenario.{
  FaultKind, healthy, dropout, latency, stale, RobotConfig, SystemConfig, ExperimentTiming,
  FaultParameters, FaultSpec, WatchdogConfig, FaultExpectation, WatchdogExpectation,
  RecoveryExpectation, RobotExpectation, Expectations, ScenarioConfig,
}

-- the value of a `FaultKind`
abbrev pub kind_text : FaultKind → String
kind_text healthy = "none"
kind_text dropout = "dropout"
kind_text latency = "latency"
kind_text stale = "stale"

module _ {F : Type 0} where
  -- a key of `parameters`, if it is there
  abbrev pub parameter : String → Option F → Entries F → Entries F
  parameter key none es = es
  parameter key (some x) es = entry key (floating x) es

  abbrev pub optional : {A : Type 0} → (A → Entries F) → Option A → Value F
  optional fields none = null
  optional fields (some a) = mapping (fields a)

  abbrev pub robot_fields : RobotConfig F → Entries F
  robot_fields r = entry "publish_rate_hz" (floating r.publish_rate_hz) (
      entry "initial_linear_velocity_mps" (floating r.initial_linear_velocity_mps)
        (entry "initial_angular_velocity_rad_s" (floating r.initial_angular_velocity_rad_s) empty))

  abbrev pub system_fields : SystemConfig F → Entries F
  system_fields s = entry "input_topic" (text s.input_topic) (
      entry "output_topic" (text s.output_topic) (
        entry "message_type" (text s.message_type) (
          entry "command_topic" (text s.command_topic)
            (entry "robot" (mapping (robot_fields s.robot)) empty))))

  abbrev pub experiment_fields : ExperimentTiming F → Entries F
  experiment_fields e = entry "seed" (integer (pos e.seed)) (
      entry "readiness_timeout_sec" (floating e.readiness_timeout_sec) (
        entry "healthy_baseline_sec" (floating e.healthy_baseline_sec) (
          entry "observation_after_activation_sec" (floating e.observation_after_activation_sec)
            empty)))

  abbrev pub parameter_fields : FaultParameters F → Entries F
  parameter_fields p =
      parameter "drop_probability" p.drop_probability
        (parameter "delay_sec" p.delay_sec (parameter "jitter_sec" p.jitter_sec empty))

  abbrev pub fault_fields : FaultSpec F → Entries F
  fault_fields s = entry "type" (text (kind_text s.type)) (
      entry "parameters" (mapping (parameter_fields s.parameters))
        (entry "duration_sec" (floating s.duration_sec) empty))

  abbrev pub watchdog_fields : WatchdogConfig F → Entries F
  watchdog_fields w = entry "max_age_sec" (floating w.max_age_sec) (
      entry "expected_rate_hz" (floating w.expected_rate_hz) (
        entry "loss_window_sec" (floating w.loss_window_sec) (
          entry "max_loss_fraction" (floating w.max_loss_fraction) (
            entry "check_period_sec" (floating w.check_period_sec)
              (entry "recovery" (text w.recovery) empty)))))

  abbrev pub fault_expectation_fields : FaultExpectation F → Entries F
  fault_expectation_fields e =
      entry "observable" (boolean e.observable) (entry "within_sec" (floating e.within_sec) empty)

  abbrev pub watchdog_expectation_fields : WatchdogExpectation F → Entries F
  watchdog_expectation_fields e =
      entry "violation" (text e.violation) (entry "within_sec" (floating e.within_sec) empty)

  abbrev pub recovery_expectation_fields : RecoveryExpectation F → Entries F
  recovery_expectation_fields e = entry "action" (text e.action) (
      entry "command_within_sec" (floating e.command_within_sec)
        (entry "observed_within_sec" (floating e.observed_within_sec) empty))

  abbrev pub robot_expectation_fields : RobotExpectation F → Entries F
  robot_expectation_fields e =
      entry "linear_velocity_below_mps" (floating e.linear_velocity_below_mps) (
        entry "angular_velocity_below_rad_s" (floating e.angular_velocity_below_rad_s) (
          entry "within_sec" (floating e.within_sec)
            (entry "hold_sec" (floating e.hold_sec) empty)))

  abbrev pub expect_fields : Expectations F → Entries F
  expect_fields e = entry "no_violation_before_fault" (boolean e.no_violation_before_fault) (
      entry "fault" (optional fault_expectation_fields e.fault) (
        entry "watchdog" (optional watchdog_expectation_fields e.watchdog) (
          entry "recovery" (optional recovery_expectation_fields e.recovery)
            (entry "robot" (optional robot_expectation_fields e.robot) empty))))

  abbrev pub scenario_fields : ScenarioConfig F → Entries F
  scenario_fields s = entry "schema_version" (integer s.schema_version) (
      entry "name" (text s.name) (
        entry "system" (mapping (system_fields s.system)) (
          entry "experiment" (mapping (experiment_fields s.experiment)) (
            entry "fault" (mapping (fault_fields s.fault)) (
              entry "watchdog" (mapping (watchdog_fields s.watchdog))
                (entry "expect" (mapping (expect_fields s.expect)) empty))))))

  abbrev pub as_dict : ScenarioConfig F → Value F
  as_dict s = mapping (scenario_fields s)
