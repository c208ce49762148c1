-- ===== src/Ros/Runner/Exit.antt =====
-- The batch that ros/experiment_runner_node.py runs, its status and its exit code.
use mathlib.Core.Path.{subst}
use ros2_resilience.Prelude.{
  ℕ, zero, suc, ◌+◌, pos, ◌+ℤ◌, ◌≡◌, refl, sym, ap, ◌∙◌, Bool, true, false, ◌&&◌, String, none,
  List, [], ◌∷◌, All, all, any, arith, filter, length, length-filter-le, ◌==◌, Bool-cases, inl, inr,
}
use ros2_resilience.Python.Float.{Float}
use ros2_resilience.Python.Result.{ok_injective, Result, ok, Ensures, Result-cases, ◌>>=◌}
use ros2_resilience.Core.Batch.{derive_seed, trial_id}
use ros2_resilience.Core.Results.{TrialResult, is_pass}
use ros2_resilience.Core.Scenario.{ScenarioConfig}
use ros2_resilience.Ros.Runner.{
  Execution, run_trial, run_indexed, run_from, run_batch, recorded, has_error, exit_code,
}
use ros2_resilience.Ros.Runner.Passing.{trial_passed, trial_labels}

-- the indices from `i` on
abbrev pub indices : ℕ → ℕ → List ℕ
indices i zero = []
indices i (suc n) = i ∷ indices (i + 1) n

collected :
    {A : Type 0} (first : Result A) (others : Result (List A)) {a : A} {rest : List A}
    → first ≡ ok a
    → others ≡ ok rest
    → (first >>= λ x. (others >>= λ xs. ok (x ∷ xs))) ≡ ok (a ∷ rest)
collected first others h k = rw (h, k) refl

suc_eqb : (a b : ℕ) → (suc a == suc b) ≡ (a == b)
suc_eqb a b = ground arith

module _ {A : Type 0} where
  filter-all : (p : A → Bool) (xs : List A) → (length (filter p xs) == length xs) ≡ all p xs
  unfolding filter
  filter-all p [] = refl
  filter-all p (x ∷ xs) = elim (Bool-cases (p x)) [
    | inl kept ↦ rw kept (suc_eqb (length (filter p xs)) (length xs) ∙ filter-all p xs)
    | inr left ↦ ground (arith, length-filter-le p xs)
  ]

module _ {F : Type 0} where
  -- An infrastructure error and a pass exclude each other.
  abbrev pub IsHonest : TrialResult F → Type 0
  IsHonest r = r.passed ≡ true → r.infrastructure_error ≡ none

  some_failed :
      (trials : List (TrialResult F))
      → All IsHonest trials
      → (any (λ t. has_error t.infrastructure_error) trials && all (λ t. t.passed) trials) ≡ false
  some_failed [] h = refl
  some_failed (t ∷ ts) h = elim (Bool-cases t.passed) [
    | inl kept ↦ rw (h.0 kept, kept) (some_failed ts h.1)
    | inr failed ↦ ground (arith, failed)
  ]

  exit_code-honest :
      (trials : List (TrialResult F))
      → All IsHonest trials
      → (exit_code trials == 0) ≡ is_pass (length trials) trials
  unfolding exit_code
  exit_code-honest trials h =
      let excluded = some_failed trials h in rw (filter-all (λ t. t.passed) trials) (ground arith)

module _ {F : Type 0} ⦃f : Float F⦄ (s : ScenarioConfig F) (batch_id : String) where
  -- the record of the trial with this index
  pub record IsNumbered (i : ℕ) (r : TrialResult F) : Type 0 where
    pub index : r.trial_index ≡ i
    pub id : trial_id batch_id (pos i) ≡ ok r.trial_id
    pub seed : r.seed ≡ pos s.experiment.seed +ℤ pos i
    pub honest : IsHonest r

  -- records with the indices from `i` on
  abbrev pub AreNumbered : ℕ → List (TrialResult F) → Type 0
  AreNumbered i [] = Unit
  AreNumbered i (r ∷ rs) = IsNumbered i r × AreNumbered (i + 1) rs

  numbered :
      (execute : Execution F) (id : String) (i : ℕ)
      → trial_id batch_id (pos i) ≡ ok id
      → let seed = pos s.experiment.seed +ℤ pos i in
        IsNumbered i (recorded s id i seed (run_trial execute s id i seed))
  numbered execute id i named =
      let seed = pos s.experiment.seed +ℤ pos i in
      elim (Result-cases (run_trial execute s id i seed)) [
        | inl (e, same) ↦
            rw same (record { index = refl; id = named; seed = refl; honest = λ h. cc })
        | inr (r, same) ↦ rw same (
            let (id_kept, index_kept, seed_kept) =
              subst (Ensures _) same (trial_labels execute s id i seed) in
            let means = subst (Ensures _) same (trial_passed execute s id i seed) in
            record {
              index = index_kept;
              id = rw id_kept named;
              seed = seed_kept;
              honest = λ h. (means h).2.no_error_recorded;
            })
      ]

  run_indexed-IsNumbered :
      (execute : Execution F) (i : ℕ)
      → (r : TrialResult F) × (run_indexed execute s batch_id i ≡ ok r) × IsNumbered i r
  unfolding run_indexed trial_id derive_seed
  run_indexed-IsNumbered execute i = (_, refl, numbered execute _ i refl)

  run_from-AreNumbered :
      (execute : Execution F) (i n : ℕ)
      → (rs : List (TrialResult F)) × (run_from execute s batch_id i n ≡ ok rs)
        × AreNumbered i rs
        × (length rs ≡ n)
  unfolding run_from
  run_from-AreNumbered execute i zero = ([], refl, tt, refl)
  run_from-AreNumbered execute i (suc n) =
      let (r, made, fine) = run_indexed-IsNumbered execute i in
      let (rs, rest, all_fine, counted) = run_from-AreNumbered execute (i + 1) n in
      (r ∷ rs, collected _ _ made rest, (fine, all_fine), ap suc counted)

  All-IsHonest : (i : ℕ) (rs : List (TrialResult F)) → AreNumbered i rs → All IsHonest rs
  All-IsHonest i [] h = tt
  All-IsHonest i (r ∷ rs) h = (h.0.honest, All-IsHonest (i + 1) rs h.1)

  -- Whatever the runs of the nodes give or raise, `run_batch` returns as many records as trials were
  -- requested, in the order of their indices from 0; each carries the identifier and the seed of its
  -- index, and none is recorded as passed with an infrastructure error.
  pub run_batch-returns :
      (execute : Execution F) (repeat : ℕ)
      → (rs : List (TrialResult F)) × (run_batch execute s batch_id repeat ≡ ok rs)
        × AreNumbered 0 rs
        × (length rs ≡ repeat)
  run_batch-returns execute repeat = run_from-AreNumbered execute 0 repeat

  -- The program exits with 0 exactly if the final status of the batch is `"pass"`, that is, if as many
  -- trials passed as were requested.
  pub exit_code-is_pass :
      (execute : Execution F) (repeat : ℕ) (rs : List (TrialResult F))
      → run_batch execute s batch_id repeat ≡ ok rs
      → (exit_code rs == 0) ≡ is_pass repeat rs
  exit_code-is_pass execute repeat rs ran =
      let (trials, made, fine, counted) = run_batch-returns execute repeat in
      let same : trials ≡ rs = ok_injective (sym made ∙ ran) in
      let honest : All IsHonest rs =
        subst (λ ts. All IsHonest ts) same (All-IsHonest 0 trials fine) in
      let number : length rs ≡ repeat = subst (λ ts. length ts ≡ repeat) same counted in
      exit_code-honest rs honest ∙ ap (λ n. is_pass n rs) number
