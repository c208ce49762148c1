-- ===== src/Tests/Batches.antt =====
-- A batch of two trials: one passes, and the run of the other raises. ros/experiment_runner_node.py.
use ros2_resilience.Prelude.{
  zero, suc, pos, ◌≡◌, ◌≢◌, refl, arith, true, ◌==◌, List, [], ◌∷◌, some, none, length,
}
use ros2_resilience.Python.Float.{nought, seconds_to_ns}
use ros2_resilience.Python.Result.{ok, raise, value_error}
use ros2_resilience.Python.Value.{in_unit_range}
use ros2_resilience.Core.Batch.{trial_id, trial_id-distinct}
use ros2_resilience.Core.Assertions.{evaluate_scenario}
use ros2_resilience.Core.Checks.{result_of, no_violation_during_observation, no_recovery_command}
use ros2_resilience.Core.Experiment.{TrialLifecycle, finished}
use ros2_resilience.Core.Results.Summaries.{Summarizes, aggregate-Summarizes}
use ros2_resilience.Core.Results.{Aggregates, aggregate, TrialResult, is_pass}
use ros2_resilience.Core.Scenario
use ros2_resilience.Core.Scenario.{ScenarioConfig}
use ros2_resilience.Core.Documents.{to_dict}
use ros2_resilience.Ros.Runner.Documented.{IsConsistent, to_dict-IsConsistent}
use ros2_resilience.Ros.Runner.{
  batch_of, Execution, build, run_trial, run_from, run_batch, unhandled, empty_metrics, exit_code,
}
use ros2_resilience.Ros.Runner.Configured.{expected, build-expected}
use ros2_resilience.Ros.Runner.Exit.{AreNumbered, run_batch-returns, exit_code-is_pass}
use ros2_resilience.Ros.Runner.Passing.{IsPassed, passed_means}
use ros2_resilience.Tests.Numbers.{Fixed, Fixed-IsFloat, Fixed-IsOrdered, Fixed-Float}
use ros2_resilience.Tests.Trial.{milli, scenario}

-- a healthy control
abbrev pub control : ScenarioConfig Fixed
control = record scenario {
  fault = record {
    type = Scenario.healthy;
    parameters = record { drop_probability = none; delay_sec = none; jitter_sec = none };
    duration_sec = milli 0;
  };
  expect = record {
    no_violation_before_fault = true;
    fault = none;
    watchdog = none;
    recovery = none;
    robot = none;
  };
}

abbrev pub lifecycle : TrialLifecycle Fixed
lifecycle = record {
  scenario = control;
  state = finished;
  starting_since_ns = some (pos 0);
  baseline_start_ns = some (pos 1_000_000_000);
  activation_requested_ns = none;
  activation_ns = some (pos 4_000_000_000);
  deactivation_requested_ns = none;
  observation_deadline_ns = some (pos 10_000_000_000);
  infrastructure_error = none;
}

-- the first trial runs, the later ones raise
abbrev execution : Execution Fixed
execution id zero seed = ok (lifecycle, [])
execution id (suc i) seed = raise value_error

trial_id-distinct_example : trial_id "5e1f" (pos 1000) ≢ trial_id "5e1f" (pos 10_000)
trial_id-distinct_example = trial_id-distinct "5e1f" 1000 10_000 (omega arith)

build-expected_example :
    build Scenario.latency
      (record { drop_probability = none; delay_sec = some (milli 300); jitter_sec = none })
      (pos 42)
    ≡ ok (expected Scenario.latency none 300_000_000 0 42)
unfolding Fixed-Float in_unit_range seconds_to_ns
build-expected_example =
    build-expected Scenario.latency none (some (milli 300)) none 300_000_000 0 42 refl (refl, refl)
      (refl, refl)

run_batch-returns_example :
    (rs : List (TrialResult Fixed)) × (run_batch execution control "5e1f" 2 ≡ ok rs)
    × AreNumbered control "5e1f" 0 rs
    × (length rs ≡ 2)
run_batch-returns_example = run_batch-returns control "5e1f" execution 2

abbrev pub passed_trial : TrialResult Fixed
passed_trial = record {
  trial_id = "5e1f-0000";
  trial_index = 0;
  seed = pos 42;
  scenario_name = "dropout_burst";
  lifecycle_state = finished;
  passed = true;
  infrastructure_error = none;
  activation_ns = some (pos 4_000_000_000);
  deactivation_ns = none;
  assertions =
      result_of no_violation_during_observation true ∷ result_of no_recovery_command true ∷ [];
  metrics = empty_metrics;
  events = [];
}

trial_lem : run_trial execution control "5e1f-0000" 0 (pos 42) ≡ ok passed_trial
unfolding run_trial evaluate_scenario
trial_lem = refl

passed_means_example :
    (t : TrialLifecycle Fixed) × (execution "5e1f-0000" 0 (pos 42) ≡ ok (t, []))
    × IsPassed control t passed_trial
passed_means_example =
    passed_means execution control "5e1f-0000" 0 (pos 42) passed_trial trial_lem refl

abbrev records : List (TrialResult Fixed)
records = passed_trial ∷ unhandled control "5e1f-0001" 1 (pos 43) ∷ []

batch_lem : run_batch execution control "5e1f" 2 ≡ ok records
unfolding run_from run_trial evaluate_scenario
batch_lem = refl

exit_code-is_pass_example : (exit_code records == 0) ≡ is_pass 2 records
exit_code-is_pass_example = exit_code-is_pass control "5e1f" execution 2 records batch_lem

-- a mean that is not looked at
abbrev middle : List Fixed → Fixed
middle xs = nought

abbrev measured : TrialResult Fixed
measured = record passed_trial {
  metrics = record empty_metrics { detection_latency_sec = some (milli 300) };
}

abbrev summary : Aggregates Fixed
summary = aggregate middle (measured ∷ records)

summary_lem :
    (summary.detection_latency_sec.count ≡ 1)
    × (summary.detection_latency_sec.missing ≡ 2)
    × (summary.detection_latency_sec.maximum ≡ some (milli 300))
unfolding aggregate
summary_lem = (refl, refl, refl)

aggregate-Summarizes_example :
    Summarizes (measured ∷ records) (λ m. m.detection_latency_sec) summary.detection_latency_sec
    × Summarizes
        (measured ∷ records)
        (λ m. m.recovery_command_latency_sec)
        summary.recovery_command_latency_sec
    × Summarizes
        (measured ∷ records)
        (λ m. m.command_observation_latency_sec)
        summary.command_observation_latency_sec
    × Summarizes (measured ∷ records) (λ m. m.time_to_stop_sec) summary.time_to_stop_sec
unfolding Fixed-Float
aggregate-Summarizes_example =
    aggregate-Summarizes Fixed-IsFloat Fixed-IsOrdered middle (measured ∷ records) (
      record { detection = refl; command = tt; observation = tt; stop = tt },
      (
        record { detection = tt; command = tt; observation = tt; stop = tt },
        (record { detection = tt; command = tt; observation = tt; stop = tt }, tt),
      ),
    )

to_dict-IsConsistent_example :
    IsConsistent 2
      (exit_code records)
      (to_dict middle (batch_of (λ t. "9f86d081") control "name: dropout_burst" 2 records))
to_dict-IsConsistent_example =
    to_dict-IsConsistent middle (λ t. "9f86d081") control "name: dropout_burst" "5e1f" execution 2
      records batch_lem
