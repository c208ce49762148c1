-- ===== src/Core/Sections.antt =====
-- The sections of a scenario that ros2_resilience/core/validation.py reads before the expectations.
pub mod Sound
use package.text.Mathlib.Text.{◌==◌ as str_eq}
use ros2_resilience.Prelude.{
  ℕ, ℤ, pos, eqb_ℤ, Bool, true, false, not, ◌&&◌, ◌||◌, String, Option, none, some, List, [], ◌∷◌,
  ◌++◌, any, if◌then◌else◌,
}
use ros2_resilience.Python.Float.{Float, nought, one}
use ros2_resilience.Python.Result.{Result, ok, raise, validation_error, ◌>>=◌}
use ros2_resilience.Python.Value.{Value, null, boolean, integer, floating, mapping, Entries, empty}
use ros2_resilience.Core.Fields.{
  find, get, require_mapping, reject_unknown_keys, require_key, require_nonempty_str, require_bool,
  require_int, require_nonnegative_int, require_float, require_positive_float,
  require_nonnegative_float, require_probability,
}
use ros2_resilience.Core.Scenario.{
  FaultKind, healthy, dropout, latency, stale, RobotConfig, SystemConfig, ExperimentTiming,
  FaultParameters, FaultSpec, WatchdogConfig, FaultExpectation, WatchdogExpectation,
  RecoveryExpectation, RobotExpectation, Expectations, ScenarioConfig,
}

abbrev pub supported_message_type : String
supported_message_type = "nav_msgs/msg/Odometry"

abbrev pub supported_recovery_action : String
supported_recovery_action = "stop"

-- `if not test: raise ScenarioValidationError(...)`
abbrev pub demand : Bool → Result (Unit {0})
demand true = ok tt
demand false = raise validation_error

-- `FaultKind(type_str)`
unfoldable pub fault_kind : String → Result FaultKind
fault_kind s =
    if str_eq s "none"
    then ok healthy
    else if str_eq s "dropout"
    then ok dropout
    else if str_eq s "latency"
    then ok latency
    else if str_eq s "stale"
    then ok stale
    else raise validation_error

-- `_FAULT_PARAMETERS`
abbrev pub allowed_parameters : FaultKind → List String
allowed_parameters healthy = []
allowed_parameters dropout = "drop_probability" ∷ []
allowed_parameters latency = "delay_sec" ∷ "jitter_sec" ∷ []
allowed_parameters stale = []

-- `_REQUIRED_FAULT_PARAMETERS`
abbrev pub required_parameters : FaultKind → List String
required_parameters healthy = []
required_parameters dropout = "drop_probability" ∷ []
required_parameters latency = "delay_sec" ∷ []
required_parameters stale = []

abbrev pub is_set : {F : Type 0} → Option (Value F) → Bool
is_set none = false
is_set (some v) = true

-- `key in section and section[key] is not None`
abbrev pub is_given : {F : Type 0} → Option (Value F) → Bool
is_given none = false
is_given (some null) = false
is_given (some _) = true

unfoldable pub has_all : {F : Type 0} → List String → Entries F → Bool
unfolding find
has_all [] section = true
has_all (k ∷ ks) section = is_set (find k section) && has_all ks section

-- the keys that each section may have
abbrev pub robot_keys : List String
robot_keys =
    "publish_rate_hz" ∷ "initial_linear_velocity_mps" ∷ "initial_angular_velocity_rad_s" ∷ []

abbrev pub system_keys : List String
system_keys = "input_topic" ∷ "output_topic" ∷ "message_type" ∷ "command_topic" ∷ "robot" ∷ []

abbrev pub experiment_keys : List String
experiment_keys =
    "seed" ∷ "readiness_timeout_sec" ∷ "healthy_baseline_sec" ∷ "observation_after_activation_sec"
    ∷ []

abbrev pub fault_keys : List String
fault_keys = "type" ∷ "parameters" ∷ "duration_sec" ∷ []

abbrev pub watchdog_keys : List String
watchdog_keys =
    "max_age_sec" ∷ "expected_rate_hz" ∷ "loss_window_sec" ∷ "max_loss_fraction"
    ∷ "check_period_sec" ∷ "recovery" ∷ []

module _ {F : Type 0} ⦃f : Float F⦄ where
  -- `_parse_robot`
  unfoldable pub parse_robot : Entries F → Result (RobotConfig F)
  unfolding reject_unknown_keys require_positive_float require_float
  parse_robot section = do
    _ ← reject_unknown_keys section robot_keys
    rate ← require_positive_float section "publish_rate_hz"
    linear ← require_float section "initial_linear_velocity_mps"
    angular ← require_float section "initial_angular_velocity_rad_s"
    ok (record {
      publish_rate_hz = rate;
      initial_linear_velocity_mps = linear;
      initial_angular_velocity_rad_s = angular;
    })

  -- `_parse_system`
  unfoldable pub parse_system : Entries F → Result (SystemConfig F)
  unfolding reject_unknown_keys require_nonempty_str require_mapping get parse_robot
  parse_system section = do
    _ ← reject_unknown_keys section system_keys
    message_type ← require_nonempty_str section "message_type"
    _ ← demand (str_eq message_type supported_message_type)
    robot_section ← require_mapping (get "robot" section)
    robot ← parse_robot robot_section
    input_topic ← require_nonempty_str section "input_topic"
    output_topic ← require_nonempty_str section "output_topic"
    command_topic ← require_nonempty_str section "command_topic"
    ok (record {
      input_topic = input_topic;
      output_topic = output_topic;
      message_type = message_type;
      command_topic = command_topic;
      robot = robot;
    })

  -- `_parse_experiment`
  unfoldable pub parse_experiment : Entries F → Result (ExperimentTiming F)
  unfolding reject_unknown_keys require_nonnegative_int require_positive_float
  parse_experiment section = do
    _ ← reject_unknown_keys section experiment_keys
    seed ← require_nonnegative_int section "seed"
    readiness ← require_positive_float section "readiness_timeout_sec"
    baseline ← require_positive_float section "healthy_baseline_sec"
    observation ← require_positive_float section "observation_after_activation_sec"
    ok (record {
      seed = seed;
      readiness_timeout_sec = readiness;
      healthy_baseline_sec = baseline;
      observation_after_activation_sec = observation;
    })

  -- `if key in section: parameters[key] = require(section, key)`
  abbrev pub read_optional :
      (Entries F → String → Result F) → Entries F → String → Bool → Result (Option F)
  read_optional require section key false = ok none
  read_optional require section key true = do x ← require section key; ok (some x)

  -- the parameters of `_parse_fault`
  unfoldable pub parse_parameters : FaultKind → Entries F → Result (FaultParameters F)
  unfolding reject_unknown_keys has_all find require_probability require_nonnegative_float
  parse_parameters kind section = do
    _ ← reject_unknown_keys section (allowed_parameters kind)
    _ ← demand (has_all (required_parameters kind) section)
    p ←
        read_optional require_probability section "drop_probability"
          (is_set (find "drop_probability" section))
    delay ←
        read_optional require_nonnegative_float section "delay_sec"
          (is_set (find "delay_sec" section))
    jitter ←
        read_optional require_nonnegative_float section "jitter_sec"
          (is_set (find "jitter_sec" section))
    ok (record { drop_probability = p; delay_sec = delay; jitter_sec = jitter })

  -- `value == 0`; `False == 0` holds in Python
  unfoldable pub is_zero : Value F → Bool
  is_zero (integer z) = eqb_ℤ z (pos 0)
  is_zero (floating x) = f.eqb x nought
  is_zero (boolean b) = not b
  is_zero _ = false

  unfoldable pub absent_or_zero : Option (Value F) → Bool
  unfolding is_zero
  absent_or_zero none = true
  absent_or_zero (some v) = is_zero v

  -- the duration, which is 0.0 for a healthy control
  unfoldable pub parse_duration : FaultKind → Entries F → Result F
  unfolding absent_or_zero find require_positive_float
  parse_duration healthy section = do
    _ ← demand (absent_or_zero (find "duration_sec" section))
    ok nought
  parse_duration _ section = require_positive_float section "duration_sec"

  -- `section.get("parameters", {})`
  abbrev pub or_empty : Option (Value F) → Value F
  or_empty none = mapping empty
  or_empty (some v) = v

  -- `_parse_fault`
  unfoldable pub parse_fault : Entries F → Result (FaultSpec F)
  unfolding reject_unknown_keys require_nonempty_str fault_kind require_mapping find
      parse_parameters parse_duration
  parse_fault section = do
    _ ← reject_unknown_keys section fault_keys
    type_str ← require_nonempty_str section "type"
    kind ← fault_kind type_str
    parameters_section ← require_mapping (or_empty (find "parameters" section))
    parameters ← parse_parameters kind parameters_section
    duration ← parse_duration kind section
    ok (record { type = kind; parameters = parameters; duration_sec = duration })

  -- `_parse_watchdog`
  unfoldable pub parse_watchdog : Entries F → Result (WatchdogConfig F)
  unfolding reject_unknown_keys require_nonempty_str require_positive_float require_probability
  parse_watchdog section = do
    _ ← reject_unknown_keys section watchdog_keys
    recovery ← require_nonempty_str section "recovery"
    _ ← demand (str_eq recovery supported_recovery_action)
    max_age ← require_positive_float section "max_age_sec"
    rate ← require_positive_float section "expected_rate_hz"
    window ← require_positive_float section "loss_window_sec"
    fraction ← require_probability section "max_loss_fraction"
    period ← require_positive_float section "check_period_sec"
    ok (record {
      max_age_sec = max_age;
      expected_rate_hz = rate;
      loss_window_sec = window;
      max_loss_fraction = fraction;
      check_period_sec = period;
      recovery = recovery;
    })
