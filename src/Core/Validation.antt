-- ===== src/Core/Validation.antt =====
-- ros2_resilience/core/validation.py: a decoded YAML document, checked and read as a scenario.
pub mod Sound
pub mod Rereading
pub mod RoundTrip
use package.text.Mathlib.Text.{◌==◌ as str_eq}
use ros2_resilience.Prelude.{
  ℕ, ℤ, pos, eqb_ℤ, Bool, true, false, not, ◌&&◌, ◌||◌, String, Option, none, some, List, [], ◌∷◌,
  ◌++◌, any, if◌then◌else◌,
}
use ros2_resilience.Python.Float.{Float, one}
use ros2_resilience.Python.Result.{Result, ok, raise, validation_error, ◌>>=◌}
use ros2_resilience.Python.Value.{Value, null, Entries}
use ros2_resilience.Core.Fields.{
  find, get, require_mapping, reject_unknown_keys, require_nonempty_str, require_bool, require_int,
  require_positive_float,
}
use ros2_resilience.Core.Sections.{
  demand, is_given, supported_recovery_action, parse_system, parse_experiment, parse_fault,
  parse_watchdog,
}
use ros2_resilience.Core.Scenario.{
  FaultKind, healthy, FaultExpectation, WatchdogExpectation, RecoveryExpectation, RobotExpectation,
  Expectations, ScenarioConfig,
}

-- `SUPPORTED_SCHEMA_VERSION`
abbrev pub supported_schema_version : ℤ
supported_schema_version = pos 1

-- the keys that each section may have
abbrev pub robot_expectation_keys : List String
robot_expectation_keys =
    "linear_velocity_below_mps" ∷ "angular_velocity_below_rad_s" ∷ "within_sec" ∷ "hold_sec" ∷ []

abbrev pub fault_expectation_keys : List String
fault_expectation_keys = "observable" ∷ "within_sec" ∷ []

abbrev pub watchdog_expectation_keys : List String
watchdog_expectation_keys = "violation" ∷ "within_sec" ∷ []

abbrev pub recovery_expectation_keys : List String
recovery_expectation_keys = "action" ∷ "command_within_sec" ∷ "observed_within_sec" ∷ []

abbrev pub expect_keys : List String
expect_keys = "no_violation_before_fault" ∷ "fault" ∷ "watchdog" ∷ "recovery" ∷ "robot" ∷ []

abbrev pub scenario_keys : List String
scenario_keys =
    "schema_version" ∷ "name" ∷ "system" ∷ "experiment" ∷ "fault" ∷ "watchdog" ∷ "expect" ∷ []

module _ {F : Type 0} ⦃f : Float F⦄ where
  -- `_parse_robot_expectation`
  unfoldable pub parse_robot_expectation : Entries F → Result (RobotExpectation F)
  unfolding reject_unknown_keys require_positive_float
  parse_robot_expectation section = do
    _ ← reject_unknown_keys section robot_expectation_keys
    linear ← require_positive_float section "linear_velocity_below_mps"
    angular ← require_positive_float section "angular_velocity_below_rad_s"
    within ← require_positive_float section "within_sec"
    hold ← require_positive_float section "hold_sec"
    ok (record {
      linear_velocity_below_mps = linear;
      angular_velocity_below_rad_s = angular;
      within_sec = within;
      hold_sec = hold;
    })

  unfoldable pub parse_fault_expectation : Entries F → Result (FaultExpectation F)
  unfolding reject_unknown_keys require_bool require_positive_float
  parse_fault_expectation section = do
    _ ← reject_unknown_keys section fault_expectation_keys
    observable ← require_bool section "observable"
    within ← require_positive_float section "within_sec"
    ok (record { observable = observable; within_sec = within })

  unfoldable pub parse_watchdog_expectation : Entries F → Result (WatchdogExpectation F)
  unfolding reject_unknown_keys require_nonempty_str require_positive_float
  parse_watchdog_expectation section = do
    _ ← reject_unknown_keys section watchdog_expectation_keys
    violation ← require_nonempty_str section "violation"
    within ← require_positive_float section "within_sec"
    ok (record { violation = violation; within_sec = within })

  unfoldable pub parse_recovery_expectation : Entries F → Result (RecoveryExpectation F)
  unfolding reject_unknown_keys require_nonempty_str require_positive_float
  parse_recovery_expectation section = do
    _ ← reject_unknown_keys section recovery_expectation_keys
    action ← require_nonempty_str section "action"
    _ ← demand (str_eq action supported_recovery_action)
    command ← require_positive_float section "command_within_sec"
    observed ← require_positive_float section "observed_within_sec"
    ok (record { action = action; command_within_sec = command; observed_within_sec = observed })

  -- the robot's expectation of a healthy control, which may be left out
  unfoldable pub read_robot : Option (Value F) → Result (Option (RobotExpectation F))
  unfolding require_mapping parse_robot_expectation
  read_robot none = ok none
  read_robot (some null) = ok none
  read_robot (some v) = do
    section ← require_mapping v
    robot ← parse_robot_expectation section
    ok (some robot)

  -- the branches of `_parse_expect`
  unfoldable pub expect_of : FaultKind → Bool → Entries F → Result (Expectations F)
  unfolding find get require_mapping read_robot parse_fault_expectation parse_watchdog_expectation
      parse_recovery_expectation parse_robot_expectation
  expect_of healthy no_violation section = do
    _ ← demand (not (is_given (find "fault" section)))
    _ ← demand (not (is_given (find "watchdog" section)))
    _ ← demand (not (is_given (find "recovery" section)))
    robot ← read_robot (find "robot" section)
    ok (record {
      no_violation_before_fault = no_violation;
      fault = none;
      watchdog = none;
      recovery = none;
      robot = robot;
    })
  expect_of _ no_violation section = do
    fault_section ← require_mapping (get "fault" section)
    fault ← parse_fault_expectation fault_section
    watchdog_section ← require_mapping (get "watchdog" section)
    watchdog ← parse_watchdog_expectation watchdog_section
    recovery_section ← require_mapping (get "recovery" section)
    recovery ← parse_recovery_expectation recovery_section
    robot_section ← require_mapping (get "robot" section)
    robot ← parse_robot_expectation robot_section
    ok (record {
      no_violation_before_fault = no_violation;
      fault = some fault;
      watchdog = some watchdog;
      recovery = some recovery;
      robot = some robot;
    })

  -- `_parse_expect`
  unfoldable pub parse_expect : Entries F → FaultKind → Result (Expectations F)
  unfolding reject_unknown_keys require_bool expect_of
  parse_expect section kind = do
    _ ← reject_unknown_keys section expect_keys
    no_violation ← require_bool section "no_violation_before_fault"
    expect_of kind no_violation section

  abbrev deadline_of : {A : Type 0} → (A → F) → Option A → List F
  deadline_of time none = []
  deadline_of time (some e) = time e ∷ []

  -- the times that have to lie within the observation
  abbrev pub deadlines : ScenarioConfig F → List F
  deadlines s =
      s.fault.duration_sec ∷ deadline_of (λ e. e.within_sec) s.expect.fault
      ++ (deadline_of (λ e. e.within_sec) s.expect.watchdog
          ++ (deadline_of (λ e. e.observed_within_sec) s.expect.recovery
              ++ deadline_of (λ e. f.add e.within_sec e.hold_sec) s.expect.robot))

  -- some deadline is after the observation
  abbrev pub is_late : ScenarioConfig F → Bool
  is_late s = any (λ d. f.lt s.experiment.observation_after_activation_sec d) (deadlines s)

  -- the watchdog's age limit is less than a publication period
  abbrev pub is_impatient : ScenarioConfig F → Bool
  is_impatient s = f.lt s.watchdog.max_age_sec (f.div one s.watchdog.expected_rate_hz)

  -- `_validate_cross_field_consistency`
  unfoldable pub validate_consistency : ScenarioConfig F → Result (Unit {0})
  validate_consistency s = do _ ← demand (not (is_late s)); demand (not (is_impatient s))

  unfoldable pub parse_scenario : Value F → Result (ScenarioConfig F)
  unfolding require_mapping reject_unknown_keys require_int require_nonempty_str get parse_system
      parse_experiment parse_fault parse_watchdog parse_expect validate_consistency
  parse_scenario input = do
    root ← require_mapping input
    _ ← reject_unknown_keys root scenario_keys
    version ← require_int root "schema_version"
    _ ← demand (eqb_ℤ version supported_schema_version)
    name ← require_nonempty_str root "name"
    system_section ← require_mapping (get "system" root)
    system ← parse_system system_section
    experiment_section ← require_mapping (get "experiment" root)
    experiment ← parse_experiment experiment_section
    fault_section ← require_mapping (get "fault" root)
    fault ← parse_fault fault_section
    watchdog_section ← require_mapping (get "watchdog" root)
    watchdog ← parse_watchdog watchdog_section
    expect_section ← require_mapping (get "expect" root)
    expect ← parse_expect expect_section fault.type
    let scenario : ScenarioConfig F = record {
      schema_version = version;
      name = name;
      system = system;
      experiment = experiment;
      fault = fault;
      watchdog = watchdog;
      expect = expect;
    }
    _ ← validate_consistency scenario
    ok scenario
