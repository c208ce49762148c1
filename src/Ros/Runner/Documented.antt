-- ===== src/Ros/Runner/Documented.antt =====
-- The document of a batch that ros/experiment_runner_node.py has run.
use mathlib.Core.Path.{subst}
use ros2_resilience.Prelude.{
  [], ◌∷◌, ℕ, ◌+◌, ◌≡◌, refl, sym, ◌∙◌, ap, String, List, length, filter, Bool-cases, inl, inr,
  ◌==◌, arith, if◌then◌else◌,
}
use ros2_resilience.Python.Float.{Float}
use ros2_resilience.Python.Result.{ok_injective, ok}
use ros2_resilience.Core.Documents.{BatchDocument, to_dict}
use ros2_resilience.Core.Results.{TrialResult, passed_count}
use ros2_resilience.Core.Scenario.{ScenarioConfig}
use ros2_resilience.Ros.Runner.{Execution, run_batch, batch_of, exit_code}
use ros2_resilience.Ros.Runner.Exit.{run_batch-returns, exit_code-is_pass}

module _ {F : Type 0} ⦃f : Float F⦄ where
  -- how many trials passed, and how many did not
  abbrev pub passes : List (TrialResult F) → ℕ
  passes [] = 0
  passes (t ∷ ts) = (if t.passed then 1 else 0) + passes ts

  abbrev pub failures : List (TrialResult F) → ℕ
  failures [] = 0
  failures (t ∷ ts) = (if t.passed then 0 else 1) + failures ts

  passed_failed :
      (trials : List (TrialResult F))
      → (passed_count trials ≡ passes trials) × (length trials ≡ passes trials + failures trials)
  unfolding filter
  passed_failed [] = (omega arith, omega arith)
  passed_failed (t ∷ ts) =
      let (a, b) = passed_failed ts in
      elim (Bool-cases t.passed) [
        | inl good ↦ rw good (omega (arith, a), omega (arith, b))
        | inr bad ↦ rw bad (omega (arith, a), omega (arith, b))
      ]

  -- what the document says of its trials, which the process answers with an exit code
  pub record IsConsistent (repeat : ℕ) (exit : ℕ) (d : BatchDocument F) : Type 0 where
    pub requested : d.requested_trials ≡ repeat
    pub executed : d.executed_trials ≡ repeat
    pub recorded : length d.trials ≡ repeat
    pub passed : d.passed_trials ≡ passes d.trials
    pub failed : d.failed_trials ≡ failures d.trials
    pub answered : d.final_status ≡ (if exit == 0 then "pass" else "fail")

  -- The document of a batch that was run lists as many trials as were requested, says that as many
  -- were executed, and that as many of them passed, and as many failed, as are listed as passed and as
  -- not passed; its final status is "pass" if the program exits with 0 and "fail" otherwise.
  pub to_dict-IsConsistent :
      (fmean : List F → F) (sha256 : String → String) (s : ScenarioConfig F)
      (yaml batch_id : String) (execute : Execution F) (repeat : ℕ) (rs : List (TrialResult F))
      → run_batch execute s batch_id repeat ≡ ok rs
      → IsConsistent repeat (exit_code rs) (to_dict fmean (batch_of sha256 s yaml repeat rs))
  unfolding to_dict
  to_dict-IsConsistent fmean sha256 s yaml batch_id execute repeat rs ran =
      let (trials, made, fine, number) = run_batch-returns s batch_id execute repeat in
      let many : length rs ≡ repeat =
        subst (λ ts. length ts ≡ repeat) (ok_injective (sym made ∙ ran)) number in
      let counts = passed_failed rs in
      record {
        requested = refl;
        executed = many;
        recorded = many;
        passed = counts.0;
        failed = omega (arith, counts.0, counts.1);
        answered =
            ap (λ b. if b then "pass" else "fail")
              (sym (exit_code-is_pass s batch_id execute repeat rs ran));
      }
