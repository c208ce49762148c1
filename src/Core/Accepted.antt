-- ===== src/Core/Accepted.antt =====
-- What a scenario has that ros2_resilience/core/validation.py accepts.
use package.text.Mathlib.Text.{◌==◌ as str_eq}
use ros2_resilience.Prelude.{◌≡◌, true, false, ◌&&◌, eqb_ℤ, String, Option, none, some}
use ros2_resilience.Python.Float.{Float, nought, one}
use ros2_resilience.Core.Fields.{is_blank}
use ros2_resilience.Core.Scenario.{
  FaultKind, healthy, dropout, latency, stale, RobotConfig, SystemConfig, ExperimentTiming,
  FaultSpec, WatchdogConfig, FaultExpectation, WatchdogExpectation, RecoveryExpectation,
  RobotExpectation, ScenarioConfig,
}
use ros2_resilience.Core.Sections.{supported_message_type, supported_recovery_action}
use ros2_resilience.Core.Validation.{supported_schema_version, is_late, is_impatient}

-- more than whitespace
abbrev pub IsText : String → Type 0
IsText s = is_blank s ≡ false

module _ {F : Type 0} ⦃f : Float F⦄ where
  abbrev pub IsFinite : F → Type 0
  IsFinite x = f.is_finite x ≡ true

  abbrev pub IsPositive : F → Type 0
  IsPositive x = IsFinite x × (f.le x nought ≡ false)

  abbrev pub IsNonnegative : F → Type 0
  IsNonnegative x = IsFinite x × (f.lt x nought ≡ false)

  abbrev pub IsProbability : F → Type 0
  IsProbability x = IsFinite x × ((f.le nought x && f.le x one) ≡ true)

  pub record IsRobotConfig (r : RobotConfig F) : Type 0 where
    pub rate : IsPositive r.publish_rate_hz
    pub linear : IsFinite r.initial_linear_velocity_mps
    pub angular : IsFinite r.initial_angular_velocity_rad_s

  pub record IsSystem (s : SystemConfig F) : Type 0 where
    pub input : IsText s.input_topic
    pub output : IsText s.output_topic
    pub message : IsText s.message_type
    pub supported : str_eq s.message_type supported_message_type ≡ true
    pub command : IsText s.command_topic
    pub robot : IsRobotConfig s.robot

  pub record IsTiming (e : ExperimentTiming F) : Type 0 where
    pub readiness : IsPositive e.readiness_timeout_sec
    pub baseline : IsPositive e.healthy_baseline_sec
    pub observation : IsPositive e.observation_after_activation_sec

  -- the parameters that a fault type has, and no others
  abbrev pub Fits : FaultKind → Option F → Option F → Option F → Type 0
  Fits healthy none none none = Unit
  Fits dropout (some p) none none = IsProbability p
  Fits latency none (some delay) none = IsNonnegative delay
  Fits latency none (some delay) (some jitter) = IsNonnegative delay × IsNonnegative jitter
  Fits stale none none none = Unit
  Fits _ _ _ _ = ⊥

  abbrev pub Lasts : FaultKind → F → Type 0
  Lasts healthy duration = duration ≡ nought
  Lasts _ duration = IsPositive duration

  pub record IsFaultSpec (s : FaultSpec F) : Type 0 where
    pub fits :
        Fits s.type s.parameters.drop_probability s.parameters.delay_sec s.parameters.jitter_sec
    pub lasts : Lasts s.type s.duration_sec

  pub record IsWatchdog (w : WatchdogConfig F) : Type 0 where
    pub age : IsPositive w.max_age_sec
    pub rate : IsPositive w.expected_rate_hz
    pub window : IsPositive w.loss_window_sec
    pub fraction : IsProbability w.max_loss_fraction
    pub period : IsPositive w.check_period_sec
    pub recovery : IsText w.recovery
    pub supported : str_eq w.recovery supported_recovery_action ≡ true

  pub record IsWatchdogExpectation (e : WatchdogExpectation F) : Type 0 where
    pub violation : IsText e.violation
    pub within : IsPositive e.within_sec

  pub record IsRecoveryExpectation (e : RecoveryExpectation F) : Type 0 where
    pub action : IsText e.action
    pub supported : str_eq e.action supported_recovery_action ≡ true
    pub command : IsPositive e.command_within_sec
    pub observed : IsPositive e.observed_within_sec

  pub record IsRobotExpectation (e : RobotExpectation F) : Type 0 where
    pub linear : IsPositive e.linear_velocity_below_mps
    pub angular : IsPositive e.angular_velocity_below_rad_s
    pub within : IsPositive e.within_sec
    pub hold : IsPositive e.hold_sec

  -- the expectations that a fault scenario has
  pub record IsFaultExpect (a : FaultExpectation F) (b : WatchdogExpectation F)
      (c : RecoveryExpectation F) (d : RobotExpectation F) : Type 0 where
    pub fault : IsPositive a.within_sec
    pub watchdog : IsWatchdogExpectation b
    pub recovery : IsRecoveryExpectation c
    pub robot : IsRobotExpectation d

  -- A healthy control has at most an expectation of the robot, another scenario has all four.
  abbrev pub Expects :
      FaultKind
      → Option (FaultExpectation F)
      → Option (WatchdogExpectation F)
      → Option (RecoveryExpectation F)
      → Option (RobotExpectation F)
      → Type 0
  Expects healthy none none none none = Unit
  Expects healthy none none none (some d) = IsRobotExpectation d
  Expects healthy _ _ _ _ = ⊥
  Expects _ (some a) (some b) (some c) (some d) = IsFaultExpect a b c d
  Expects _ _ _ _ _ = ⊥

  pub record IsAccepted (s : ScenarioConfig F) : Type 0 where
    pub version : eqb_ℤ s.schema_version supported_schema_version ≡ true
    pub name : IsText s.name
    pub system : IsSystem s.system
    pub experiment : IsTiming s.experiment
    pub fault : IsFaultSpec s.fault
    pub watchdog : IsWatchdog s.watchdog
    pub expect :
        Expects s.fault.type s.expect.fault s.expect.watchdog s.expect.recovery s.expect.robot
    -- no deadline is after the observation
    pub timely : is_late s ≡ false
    pub patient : is_impatient s ≡ false
