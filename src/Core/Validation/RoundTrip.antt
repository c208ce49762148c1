-- ===== src/Core/Validation/RoundTrip.antt =====
-- The mapping that `asdict` makes of a scenario, read again by core/validation.py.
use ros2_resilience.Prelude.{Bool, true, ◌≡◌, refl, Option, none, some}
use ros2_resilience.Python.Float.{Float, nought}
use ros2_resilience.Python.Result.{ok}
use ros2_resilience.Core.Fields.{
  find, get, has_only, is_member, reject_unknown_keys, require_mapping,
}
use ros2_resilience.Core.Fields.Stored.{text_stored, positive_stored}
use ros2_resilience.Core.Scenario.{
  FaultKind, healthy, dropout, latency, stale, FaultExpectation, WatchdogExpectation,
  RecoveryExpectation, RobotExpectation, Expectations, ScenarioConfig,
}
use ros2_resilience.Core.Validation.{
  parse_fault_expectation, parse_watchdog_expectation, parse_recovery_expectation,
  parse_robot_expectation, read_robot, expect_of, parse_expect, validate_consistency,
  parse_scenario,
}
use ros2_resilience.Core.Accepted.{
  IsPositive, IsWatchdogExpectation, IsRecoveryExpectation, IsRobotExpectation, Expects, IsAccepted,
}
use ros2_resilience.Core.Serialized.{
  fault_expectation_fields, watchdog_expectation_fields, recovery_expectation_fields,
  robot_expectation_fields, expect_fields, scenario_fields, as_dict,
}
use ros2_resilience.Core.Validation.Rereading.{
  system_again, experiment_again, watchdog_again, fault_again,
}

module _ {F : Type 0} ⦃f : Float F⦄ where
  fault_expectation_again :
      (a : FaultExpectation F)
      → IsPositive a.within_sec
      → parse_fault_expectation (fault_expectation_fields a) ≡ ok a
  unfolding parse_fault_expectation reject_unknown_keys has_only is_member find
  fault_expectation_again a h =
      let es = fault_expectation_fields a in
      rw (positive_stored es "within_sec" a.within_sec refl h) refl

  watchdog_expectation_again :
      (a : WatchdogExpectation F)
      → IsWatchdogExpectation a
      → parse_watchdog_expectation (watchdog_expectation_fields a) ≡ ok a
  unfolding parse_watchdog_expectation reject_unknown_keys has_only is_member find
  watchdog_expectation_again a h =
      let es = watchdog_expectation_fields a in
      rw
        (
          text_stored es "violation" a.violation refl h.violation,
          positive_stored es "within_sec" a.within_sec refl h.within,
        )
        refl

  recovery_expectation_again :
      (a : RecoveryExpectation F)
      → IsRecoveryExpectation a
      → parse_recovery_expectation (recovery_expectation_fields a) ≡ ok a
  unfolding parse_recovery_expectation reject_unknown_keys has_only is_member find
  recovery_expectation_again a h =
      let es = recovery_expectation_fields a in
      rw
        (
          text_stored es "action" a.action refl h.action,
          h.supported,
          positive_stored es "command_within_sec" a.command_within_sec refl h.command,
          positive_stored es "observed_within_sec" a.observed_within_sec refl h.observed,
        )
        refl

  robot_expectation_again :
      (a : RobotExpectation F)
      → IsRobotExpectation a
      → parse_robot_expectation (robot_expectation_fields a) ≡ ok a
  unfolding parse_robot_expectation reject_unknown_keys has_only is_member find
  robot_expectation_again a h =
      let es = robot_expectation_fields a in
      rw
        (
          positive_stored es "linear_velocity_below_mps" a.linear_velocity_below_mps refl h.linear,
          positive_stored es "angular_velocity_below_rad_s" a.angular_velocity_below_rad_s refl
              h.angular,
          positive_stored es "within_sec" a.within_sec refl h.within,
          positive_stored es "hold_sec" a.hold_sec refl h.hold,
        )
        refl

  robot_alone :
      (no_violation : Bool) (a : Option (FaultExpectation F)) (b : Option (WatchdogExpectation F))
      (c : Option (RecoveryExpectation F)) (d : Option (RobotExpectation F))
      → Expects healthy a b c d
      → let e : Expectations F = record {
        no_violation_before_fault = no_violation;
        fault = a;
        watchdog = b;
        recovery = c;
        robot = d;
      } in
        expect_of healthy no_violation (expect_fields e) ≡ ok e
  unfolding expect_of find get require_mapping read_robot
  robot_alone v none none none none h = refl
  robot_alone v none none none (some d) h = rw (robot_expectation_again d h) refl
  robot_alone v none none (some c) d h = elim h [ ]
  robot_alone v none (some b) c d h = elim h [ ]
  robot_alone v (some a) b c d h = elim h [ ]

  all_again :
      (no_violation : Bool) (a : Option (FaultExpectation F)) (b : Option (WatchdogExpectation F))
      (c : Option (RecoveryExpectation F)) (d : Option (RobotExpectation F))
      → Expects dropout a b c d
      → let e : Expectations F = record {
        no_violation_before_fault = no_violation;
        fault = a;
        watchdog = b;
        recovery = c;
        robot = d;
      } in
        expect_of dropout no_violation (expect_fields e) ≡ ok e
  unfolding expect_of find get require_mapping
  all_again v (some a) (some b) (some c) (some d) h =
      rw
        (
          fault_expectation_again a h.fault,
          watchdog_expectation_again b h.watchdog,
          recovery_expectation_again c h.recovery,
          robot_expectation_again d h.robot,
        )
        refl
  all_again v (some a) (some b) (some c) none h = elim h [ ]
  all_again v (some a) (some b) none d h = elim h [ ]
  all_again v (some a) none c d h = elim h [ ]
  all_again v none b c d h = elim h [ ]

  expect_again :
      (kind : FaultKind) (e : Expectations F)
      → Expects kind e.fault e.watchdog e.recovery e.robot
      → parse_expect (expect_fields e) kind ≡ ok e
  unfolding parse_expect reject_unknown_keys has_only is_member find
  expect_again healthy e h =
      robot_alone e.no_violation_before_fault e.fault e.watchdog e.recovery e.robot h
  expect_again dropout e h =
      all_again e.no_violation_before_fault e.fault e.watchdog e.recovery e.robot h
  expect_again latency e h =
      all_again e.no_violation_before_fault e.fault e.watchdog e.recovery e.robot h
  expect_again stale e h =
      all_again e.no_violation_before_fault e.fault e.watchdog e.recovery e.robot h

  -- The mapping that `asdict` makes of an accepted scenario is read as the same scenario, provided
  -- that `0.0 == 0` holds for the floats.
  pub parse_scenario-as_dict :
      (s : ScenarioConfig F)
      → f.eqb nought nought ≡ true
      → IsAccepted s
      → parse_scenario (as_dict s) ≡ ok s
  unfolding parse_scenario reject_unknown_keys has_only is_member find get require_mapping
      validate_consistency
  parse_scenario-as_dict s zero h =
      rw
        (
          text_stored (scenario_fields s) "name" s.name refl h.name,
          h.version,
          system_again s.system h.system,
          experiment_again s.experiment h.experiment,
          fault_again s.fault zero h.fault,
          watchdog_again s.watchdog h.watchdog,
          expect_again s.fault.type s.expect h.expect,
          h.timely,
          h.patient,
        )
        refl
