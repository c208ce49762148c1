-- ===== src/Core/Documents.antt =====
-- `BatchResult` of ros2_resilience/core/results.py and the mapping that its `to_dict` makes. The
-- entries of a trial's mapping are the fields of the trial, which the model keeps.
use ros2_resilience.Prelude.{ℕ, String, List, length, if◌then◌else◌}
use ros2_resilience.Python.Float.{Float}
use ros2_resilience.Python.Value.{Value}
use ros2_resilience.Core.Results.{
  TrialResult, Aggregates, passed_count, failed_count, is_pass, aggregate,
}

pub record BatchResult (F : Type 0) : Type 0 where
  pub scenario_name : String
  pub scenario_config : Value F
  pub scenario_yaml : String
  pub config_hash : String
  pub requested_trials : ℕ
  pub trials : List (TrialResult F)

pub record BatchDocument (F : Type 0) : Type 0 where
  pub schema_version : ℕ
  pub scenario_name : String
  pub scenario_config : Value F
  pub scenario_yaml : String
  pub config_hash : String
  pub requested_trials : ℕ
  pub executed_trials : ℕ
  pub passed_trials : ℕ
  pub failed_trials : ℕ
  pub final_status : String
  pub aggregates : Aggregates F
  pub trials : List (TrialResult F)

abbrev pub results_schema_version : ℕ
results_schema_version = 1

-- `BatchResult.to_dict`
unfoldable pub to_dict : {F : Type 0} ⦃f : Float F⦄ → (List F → F) → BatchResult F → BatchDocument F
to_dict fmean b = record {
  schema_version = results_schema_version;
  scenario_name = b.scenario_name;
  scenario_config = b.scenario_config;
  scenario_yaml = b.scenario_yaml;
  config_hash = b.config_hash;
  requested_trials = b.requested_trials;
  executed_trials = length b.trials;
  passed_trials = passed_count b.trials;
  failed_trials = failed_count b.trials;
  final_status = if is_pass b.requested_trials b.trials then "pass" else "fail";
  aggregates = aggregate fmean b.trials;
  trials = b.trials;
}
