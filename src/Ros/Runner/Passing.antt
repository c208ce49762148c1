-- ===== src/Ros/Runner/Passing.antt =====
-- What a passed trial of ros/experiment_runner_node.py means, and what fails a trial.
use mathlib.Core.Path.{subst}
use ros2_resilience.Prelude.{
  ℕ, ℤ, Bool, ◌≡◌, refl, true, String, Option, none, some, List, [], ◌∷◌, All, all, arith,
}
use ros2_resilience.Python.Float.{Float}
use ros2_resilience.Python.Result.{Result, ok, Ensures, Ensures-bind}
use ros2_resilience.Core.Assertions.{evaluate_scenario}
use ros2_resilience.Core.Events.{Event}
use ros2_resilience.Core.Experiment.{TrialLifecycle}
use ros2_resilience.Core.Results.{TrialResult}
use ros2_resilience.Core.Scenario.{ScenarioConfig}
use ros2_resilience.Ros.Runner.{Execution, timeline_of, judge, conclude, run_trial}

all-All : {A : Type 0} (p : A → Bool) (xs : List A) → all p xs ≡ true → All (λ x. p x ≡ true) xs
all-All p [] h = tt
all-All p (x ∷ xs) h = (ground arith, all-All p xs (ground arith))

module _ {F : Type 0} ⦃f : Float F⦄ where
  -- what a passed trial rests on
  pub record IsPassed (s : ScenarioConfig F) (t : TrialLifecycle F) (r : TrialResult F)
      : Type 0 where
    pub no_error : t.infrastructure_error ≡ none
    pub activation : ℤ
    pub activated : t.activation_ns ≡ some activation
    pub judged : evaluate_scenario s r.events (timeline_of t activation) ≡ ok r.assertions
    pub all_passed : All (λ a. a.passed ≡ true) r.assertions
    -- and in the record of the trial
    pub no_error_recorded : r.infrastructure_error ≡ none
    pub activation_recorded : r.activation_ns ≡ some activation

  judge_passed :
      (s : ScenarioConfig F) (events : List (Event F)) (t : TrialLifecycle F)
      (error : Option String) (activation : Option ℤ)
      → Ensures
          (λ v.
            v.1 ≡ true
            → (a : ℤ) × (error ≡ none)
              × (activation ≡ some a)
              × (evaluate_scenario s events (timeline_of t a) ≡ ok v.0)
              × All (λ x. x.passed ≡ true) v.0)
          (judge s events t error activation)
  unfolding judge
  judge_passed s events t (some message) activation = λ h. cc
  judge_passed s events t none none = λ h. cc
  judge_passed s events t none (some a) =
      Ensures-bind _ (evaluate_scenario s events (timeline_of t a)) _
        λ results same passed. (a, refl, refl, same, all-All (λ x. x.passed) results passed)

  conclude_passed :
      (s : ScenarioConfig F) (id : String) (index : ℕ) (seed : ℤ) (t : TrialLifecycle F)
      (events : List (Event F)) (evidence : Result (TrialLifecycle F × List (Event F)))
      → evidence ≡ ok (t, events)
      → Ensures
          (λ r.
            r.passed ≡ true
            → (u : TrialLifecycle F) × (evidence ≡ ok (u, r.events)) × IsPassed s u r)
          (conclude s id index seed (t, events))
  unfolding conclude
  conclude_passed s id index seed t events evidence found =
      Ensures-bind _ (judge s events t t.infrastructure_error t.activation_ns) _ λ v same passed.
        let (a, fine, activated, judged, held) =
          subst (Ensures _) same (judge_passed s events t t.infrastructure_error t.activation_ns)
            passed in
        (
          t,
          found,
          record {
            no_error = fine;
            activation = a;
            activated = activated;
            judged = judged;
            all_passed = held;
            no_error_recorded = fine;
            activation_recorded = activated;
          },
        )

  pub trial_passed :
      (execute : Execution F) (s : ScenarioConfig F) (id : String) (index : ℕ) (seed : ℤ)
      → Ensures
          (λ r.
            r.passed ≡ true
            → (t : TrialLifecycle F) × (execute id index seed ≡ ok (t, r.events)) × IsPassed s t r)
          (run_trial execute s id index seed)
  unfolding run_trial
  trial_passed execute s id index seed =
      Ensures-bind _ (execute id index seed) _
        λ evidence same. conclude_passed s id index seed evidence.0 evidence.1 _ same

  pub trial_labels :
      (execute : Execution F) (s : ScenarioConfig F) (id : String) (index : ℕ) (seed : ℤ)
      → Ensures
          (λ r. (r.trial_id ≡ id) × (r.trial_index ≡ index) × (r.seed ≡ seed))
          (run_trial execute s id index seed)
  unfolding run_trial conclude
  trial_labels execute s id index seed = Ensures-bind _ (execute id index seed) _ λ evidence _.
      Ensures-bind _
        (judge s evidence.1 evidence.0 evidence.0.infrastructure_error evidence.0.activation_ns) _
        λ v _. (refl, refl, refl)

  -- A trial that is recorded as passed did activate the fault, or the observation of a healthy control,
  -- without an infrastructure error; its assertions are those of `evaluate_scenario` on the events that
  -- the run of its nodes gave, on the timeline of its lifecycle; and all of them passed.
  pub passed_means :
      (execute : Execution F) (s : ScenarioConfig F) (id : String) (index : ℕ) (seed : ℤ)
      (r : TrialResult F)
      → run_trial execute s id index seed ≡ ok r
      → r.passed ≡ true
      → (t : TrialLifecycle F) × (execute id index seed ≡ ok (t, r.events)) × IsPassed s t r
  passed_means execute s id index seed r ran =
      subst (Ensures _) ran (trial_passed execute s id index seed)
