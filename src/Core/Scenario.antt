-- ===== src/Core/Scenario.antt =====
-- ros2_resilience/core/scenario.py: the configuration of a trial.
use ros2_resilience.Prelude.{ℕ, ℤ, Bool, true, false, String, Option}

pub data FaultKind : Type 0 where
  healthy dropout latency stale : FaultKind

pub record RobotConfig (F : Type 0) : Type 0 where
  pub publish_rate_hz : F
  pub initial_linear_velocity_mps : F
  pub initial_angular_velocity_rad_s : F

pub record SystemConfig (F : Type 0) : Type 0 where
  pub input_topic : String
  pub output_topic : String
  pub message_type : String
  pub command_topic : String
  pub robot : RobotConfig F

pub record ExperimentTiming (F : Type 0) : Type 0 where
  pub seed : ℕ
  pub readiness_timeout_sec : F
  pub healthy_baseline_sec : F
  pub observation_after_activation_sec : F

-- the entries of `parameters` that a fault type has; `none` is a missing key
pub record FaultParameters (F : Type 0) : Type 0 where
  pub drop_probability : Option F
  pub delay_sec : Option F
  pub jitter_sec : Option F

pub record FaultSpec (F : Type 0) : Type 0 where
  pub type : FaultKind
  pub parameters : FaultParameters F
  pub duration_sec : F

pub record WatchdogConfig (F : Type 0) : Type 0 where
  pub max_age_sec : F
  pub expected_rate_hz : F
  pub loss_window_sec : F
  pub max_loss_fraction : F
  pub check_period_sec : F
  pub recovery : String

pub record FaultExpectation (F : Type 0) : Type 0 where
  pub observable : Bool
  pub within_sec : F

pub record WatchdogExpectation (F : Type 0) : Type 0 where
  pub violation : String
  pub within_sec : F

pub record RecoveryExpectation (F : Type 0) : Type 0 where
  pub action : String
  pub command_within_sec : F
  pub observed_within_sec : F

pub record RobotExpectation (F : Type 0) : Type 0 where
  pub linear_velocity_below_mps : F
  pub angular_velocity_below_rad_s : F
  pub within_sec : F
  pub hold_sec : F

pub record Expectations (F : Type 0) : Type 0 where
  pub no_violation_before_fault : Bool
  pub fault : Option (FaultExpectation F)
  pub watchdog : Option (WatchdogExpectation F)
  pub recovery : Option (RecoveryExpectation F)
  pub robot : Option (RobotExpectation F)

pub record ScenarioConfig (F : Type 0) : Type 0 where
  pub schema_version : ℤ
  pub name : String
  pub system : SystemConfig F
  pub experiment : ExperimentTiming F
  pub fault : FaultSpec F
  pub watchdog : WatchdogConfig F
  pub expect : Expectations F

abbrev is_none_kind : FaultKind → Bool
is_none_kind healthy = true
is_none_kind _ = false

abbrev pub is_healthy_control : {F : Type 0} → ScenarioConfig F → Bool
is_healthy_control s = is_none_kind s.fault.type
