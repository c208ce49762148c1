-- ===== src/Ros/Runner.antt =====
-- ros2_resilience/ros/experiment_runner_node.py: what a trial makes of the scenario before its nodes
-- run and of the evidence after, the batch of trials, and the exit code. The run of the nodes, from
-- `rclpy.init` to the end of the drain, is a parameter: it gives the lifecycle and the events, or
-- raises. The texts of exceptions are not modelled.
pub mod Configured
pub mod Passing
pub mod Stopping
pub mod Documented
pub mod Exit
use ros2_resilience.Prelude.{
  ℕ, suc, zero, ◌+◌, ℤ, pos, Bool, true, false, String, Option, none, some, List, [], ◌∷◌, any, all,
  if◌then◌else◌,
}
use ros2_resilience.Python.Float.{Float, nought, seconds_to_ns}
use ros2_resilience.Python.Result.{Result, ok, raise, key_error, ◌>>=◌}
use ros2_resilience.Python.Value.{Value, boolean, integer, floating}
use ros2_resilience.Faults.Config
use ros2_resilience.Faults.Config.{FaultConfig, FaultType, make_config}
use ros2_resilience.Core.Assertions.{evaluate_scenario}
use ros2_resilience.Core.Batch.{derive_seed, trial_id}
use ros2_resilience.Core.Checks.{AssertionResult, Timeline, first_violation_receipt_ns}
use ros2_resilience.Core.Events.{Event}
use ros2_resilience.Core.Experiment.{TrialLifecycle, finished}
use ros2_resilience.Core.Metrics.{
  detection_latency_sec, recovery_command_latency_sec, command_observation_latency_sec,
  time_to_stop_sec,
}
use ros2_resilience.Core.Documents.{BatchResult}
use ros2_resilience.Core.Serialized.{as_dict}
use ros2_resilience.Core.Results.{Metrics, TrialResult}
use ros2_resilience.Core.Scenario.{
  FaultKind, healthy, dropout, latency, stale, ScenarioConfig, RobotExpectation, FaultParameters,
  is_healthy_control,
}

module _ {F : Type 0} ⦃f : Float F⦄ where
  -- `parameters[key]`
  abbrev item : Option F → Result F
  item none = raise key_error
  item (some x) = ok x

  -- `parameters.get("jitter_sec", 0.0)`
  abbrev pub or_nought : Option F → F
  or_nought none = nought
  or_nought (some x) = x

  -- `FaultConfig(...)` of a fault type and the arguments that are not the defaults
  abbrev config : Bool → FaultType → F → ℤ → ℤ → ℤ → Result (FaultConfig F)
  config enabled type p delay jitter seed =
      make_config (boolean enabled) (some type) (floating p) (integer delay) (integer jitter)
        (integer seed)

  -- `_build_fault_config`, on the fault's type and parameters
  unfoldable pub build : FaultKind → FaultParameters F → ℤ → Result (FaultConfig F)
  unfolding make_config seconds_to_ns
  build healthy ps seed = config false FaultType.healthy nought (pos 0) (pos 0) seed
  build dropout ps seed = do
    p ← item ps.drop_probability
    config true FaultType.dropout p (pos 0) (pos 0) seed
  build latency ps seed = do
    delay_sec ← item ps.delay_sec
    delay ← seconds_to_ns delay_sec
    jitter ← seconds_to_ns (or_nought ps.jitter_sec)
    config true FaultType.latency nought delay jitter seed
  build stale ps seed = config true FaultType.stale nought (pos 0) (pos 0) seed

  abbrev pub build_fault_config : ScenarioConfig F → ℤ → Result (FaultConfig F)
  build_fault_config s seed = build s.fault.type s.fault.parameters seed

-- the run of the nodes of a trial, from its identifier, its index and its seed
abbrev pub Execution : Type 0 → Type 0
Execution F = String → ℕ → ℤ → Result (TrialLifecycle F × List (Event F))

-- `x or 0`
abbrev or_zero : Option ℤ → ℤ
or_zero none = pos 0
or_zero (some x) = x

module _ {F : Type 0} where
  -- `_empty_metrics`
  abbrev pub empty_metrics : Metrics F
  empty_metrics = record {
    detection_latency_sec = none;
    recovery_command_latency_sec = none;
    command_observation_latency_sec = none;
    time_to_stop_sec = none;
  }

  abbrev pub timeline_of : TrialLifecycle F → ℤ → Timeline
  timeline_of t activation = record {
    baseline_start_ns = or_zero t.baseline_start_ns;
    activation_ns = activation;
    deactivation_ns = t.deactivation_requested_ns;
    observation_deadline_ns = or_zero t.observation_deadline_ns;
  }

module _ {F : Type 0} ⦃f : Float F⦄ where
  -- the metrics that follow a detection
  abbrev after_detection : (ℤ → Option F) → Option ℤ → Option F
  after_detection time none = none
  after_detection time (some detection) = time detection

  abbrev observation : List (Event F) → Option (RobotExpectation F) → ℤ → Option F
  observation events none detection = none
  observation events (some robot) detection =
      command_observation_latency_sec events detection robot.linear_velocity_below_mps
        robot.angular_velocity_below_rad_s

  abbrev seconds_of : Option (F × ℕ) → Option F
  seconds_of none = none
  seconds_of (some stop) = some stop.0

  abbrev stopping : List (Event F) → ℤ → Option (RobotExpectation F) → Option F
  stopping events activation none = none
  stopping events activation (some robot) = seconds_of (
      time_to_stop_sec events activation robot.linear_velocity_below_mps
        robot.angular_velocity_below_rad_s)

  -- `_compute_metrics`
  unfoldable pub compute_metrics : ScenarioConfig F → List (Event F) → Timeline → Metrics F
  unfolding detection_latency_sec recovery_command_latency_sec command_observation_latency_sec
      time_to_stop_sec first_violation_receipt_ns
  compute_metrics s events timeline =
      let detection = first_violation_receipt_ns events timeline.activation_ns in
      if is_healthy_control s then empty_metrics else record {
        detection_latency_sec = detection_latency_sec events timeline.activation_ns;
        recovery_command_latency_sec =
            after_detection (recovery_command_latency_sec events) detection;
        command_observation_latency_sec =
            after_detection (observation events s.expect.robot) detection;
        time_to_stop_sec = stopping events timeline.activation_ns s.expect.robot;
      }

  -- the verdict of `run_trial`: an infrastructure error, or no activation, fails the trial
  unfoldable pub judge :
      ScenarioConfig F
      → List (Event F)
      → TrialLifecycle F
      → Option String
      → Option ℤ
      → Result (List (AssertionResult F) × Bool)
  unfolding evaluate_scenario
  judge s events t (some error) activation = ok ([], false)
  judge s events t none none = ok ([], false)
  judge s events t none (some activation) = do
    assertions ← evaluate_scenario s events (timeline_of t activation)
    ok (assertions, all (λ a. a.passed) assertions)

  abbrev metrics_of : ScenarioConfig F → List (Event F) → TrialLifecycle F → Option ℤ → Metrics F
  metrics_of s events t none = empty_metrics
  metrics_of s events t (some activation) = compute_metrics s events (timeline_of t activation)

  -- `run_trial` after its nodes are shut down
  unfoldable pub conclude :
      ScenarioConfig F → String → ℕ → ℤ → TrialLifecycle F × List (Event F) → Result (TrialResult F)
  unfolding judge compute_metrics
  conclude s id index seed (t, events) = do
    verdict ← judge s events t t.infrastructure_error t.activation_ns
    ok (record {
      trial_id = id;
      trial_index = index;
      seed = seed;
      scenario_name = s.name;
      lifecycle_state = t.state;
      passed = verdict.1;
      infrastructure_error = t.infrastructure_error;
      activation_ns = t.activation_ns;
      deactivation_ns = t.deactivation_requested_ns;
      assertions = verdict.0;
      metrics = metrics_of s events t t.activation_ns;
      events = events;
    })

  unfoldable pub run_trial :
      Execution F → ScenarioConfig F → String → ℕ → ℤ → Result (TrialResult F)
  unfolding conclude
  run_trial execute s id index seed = do
    evidence ← execute id index seed
    conclude s id index seed evidence

  -- the record of a trial that raised
  abbrev pub unhandled : ScenarioConfig F → String → ℕ → ℤ → TrialResult F
  unhandled s id index seed = record {
    trial_id = id;
    trial_index = index;
    seed = seed;
    scenario_name = s.name;
    lifecycle_state = finished;
    passed = false;
    infrastructure_error = some "unhandled exception";
    activation_ns = none;
    deactivation_ns = none;
    assertions = [];
    metrics = empty_metrics;
    events = [];
  }

  abbrev recorded : ScenarioConfig F → String → ℕ → ℤ → Result (TrialResult F) → TrialResult F
  recorded s id index seed (ok result) = result
  recorded s id index seed (raise e) = unhandled s id index seed

  -- one round of the loop of `run_batch`
  unfoldable pub run_indexed : Execution F → ScenarioConfig F → String → ℕ → Result (TrialResult F)
  unfolding derive_seed trial_id run_trial
  run_indexed execute s batch_id index = do
    id ← trial_id batch_id (pos index)
    seed ← derive_seed (pos s.experiment.seed) (pos index)
    ok (recorded s id index seed (run_trial execute s id index seed))

  -- the rounds from an index on
  unfoldable pub run_from :
      Execution F → ScenarioConfig F → String → ℕ → ℕ → Result (List (TrialResult F))
  unfolding run_indexed
  run_from execute s batch_id index zero = ok []
  run_from execute s batch_id index (suc n) = do
    trial ← run_indexed execute s batch_id index
    trials ← run_from execute s batch_id (index + 1) n
    ok (trial ∷ trials)

  -- `run_batch`: the trials of the batch
  abbrev pub run_batch : Execution F → ScenarioConfig F → String → ℕ → Result (List (TrialResult F))
  run_batch execute s batch_id repeat = run_from execute s batch_id 0 repeat

  -- the `BatchResult` that `run_batch` returns, of the trials that it has appended; the digest of a
  -- text is an argument
  abbrev pub batch_of :
      (String → String) → ScenarioConfig F → String → ℕ → List (TrialResult F) → BatchResult F
  batch_of sha256 s scenario_yaml repeat trials = record {
    scenario_name = s.name;
    scenario_config = as_dict s;
    scenario_yaml = scenario_yaml;
    config_hash = sha256 scenario_yaml;
    requested_trials = repeat;
    trials = trials;
  }

abbrev has_error : Option String → Bool
has_error none = false
has_error (some message) = true

module _ {F : Type 0} where
  -- the last lines of `main`
  unfoldable pub exit_code : List (TrialResult F) → ℕ
  exit_code trials =
      if any (λ t. has_error t.infrastructure_error) trials
      then 2
      else if all (λ t. t.passed) trials
      then 0
      else 1
