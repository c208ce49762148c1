-- ===== src/Core/Results.antt =====
-- ros2_resilience/core/results.py: the outcome of a trial, and the counts, the status and the
-- aggregates of a batch. `statistics.fmean` is a parameter.
pub mod Summaries
use ros2_resilience.Prelude.{
  ℕ, ◌-◌, ℤ, Bool, String, Option, none, some, List, [], ◌∷◌, filter, length, map, ◌==◌,
  if◌then◌else◌,
}
use ros2_resilience.Python.Float.{Float}
use ros2_resilience.Core.Checks.{AssertionResult}
use ros2_resilience.Core.Events.{Event}
use ros2_resilience.Core.Experiment.{LifecycleState}

-- the metrics of a trial, under the keys of `_METRIC_NAMES`
pub record Metrics (F : Type 0) : Type 0 where
  pub detection_latency_sec : Option F
  pub recovery_command_latency_sec : Option F
  pub command_observation_latency_sec : Option F
  pub time_to_stop_sec : Option F

pub record TrialResult (F : Type 0) : Type 0 where
  pub trial_id : String
  pub trial_index : ℕ
  pub seed : ℤ
  pub scenario_name : String
  pub lifecycle_state : LifecycleState
  pub passed : Bool
  pub infrastructure_error : Option String
  pub activation_ns : Option ℤ
  pub deactivation_ns : Option ℤ
  pub assertions : List (AssertionResult F)
  pub metrics : Metrics F
  pub events : List (Event F)

pub record MetricSummary (F : Type 0) : Type 0 where
  pub count : ℕ
  pub missing : ℕ
  pub mean : Option F
  pub minimum : Option F
  pub maximum : Option F

module _ {F : Type 0} where
  -- `sum(1 for trial in trials if trial.passed)`
  abbrev pub passed_count : List (TrialResult F) → ℕ
  passed_count trials = length (filter (λ t. t.passed) trials)

  abbrev pub failed_count : List (TrialResult F) → ℕ
  failed_count trials = length trials - passed_count trials

  -- whether `final_status` is `"pass"`, of a batch for which so many trials were requested
  abbrev pub is_pass : ℕ → List (TrialResult F) → Bool
  is_pass requested trials = passed_count trials == requested

  -- the values that are not `None`
  unfoldable pub present : List (Option F) → List F
  present [] = []
  present (none ∷ vs) = present vs
  present (some v ∷ vs) = v ∷ present vs

module _ {F : Type 0} ⦃f : Float F⦄ where
  -- `min` and `max` of a value and those after it
  unfoldable pub least : F → List F → F
  least m [] = m
  least m (x ∷ xs) = least (if f.lt x m then x else m) xs

  unfoldable pub greatest : F → List F → F
  greatest m [] = m
  greatest m (x ∷ xs) = greatest (if f.lt m x then x else m) xs

  -- `g(present) if present else None`, for a function of a list that is not empty
  abbrev of_nonempty : (F → List F → F) → List F → Option F
  of_nonempty g [] = none
  of_nonempty g (x ∷ xs) = some (g x xs)

  -- the summary of one metric
  unfoldable pub summarize : (List F → F) → List (Option F) → MetricSummary F
  unfolding present least greatest
  summarize fmean values =
      let there = present values in
      record {
        count = length there;
        missing = length values - length there;
        mean = of_nonempty (λ x xs. fmean (x ∷ xs)) there;
        minimum = of_nonempty least there;
        maximum = of_nonempty greatest there;
      }

-- `aggregate`: a summary for each of `_METRIC_NAMES`
pub record Aggregates (F : Type 0) : Type 0 where
  pub detection_latency_sec : MetricSummary F
  pub recovery_command_latency_sec : MetricSummary F
  pub command_observation_latency_sec : MetricSummary F
  pub time_to_stop_sec : MetricSummary F

unfoldable pub aggregate :
    {F : Type 0} ⦃f : Float F⦄ → (List F → F) → List (TrialResult F) → Aggregates F
unfolding summarize
aggregate fmean trials = record {
  detection_latency_sec = summarize fmean (map (λ t. t.metrics.detection_latency_sec) trials);
  recovery_command_latency_sec =
      summarize fmean (map (λ t. t.metrics.recovery_command_latency_sec) trials);
  command_observation_latency_sec =
      summarize fmean (map (λ t. t.metrics.command_observation_latency_sec) trials);
  time_to_stop_sec = summarize fmean (map (λ t. t.metrics.time_to_stop_sec) trials);
}
