-- ===== src/Core/Results/Summaries.antt =====
-- The aggregates of a batch: `aggregate` of ros2_resilience/core/results.py.
use mathlib.Core.Path.{subst}
use mathlib.Core.List.{Mem, mem-cons_self, mem-cons_of_mem}
use ros2_resilience.Prelude.{
  ℕ, ◌+◌, ◌≡◌, refl, sym, ap, Bool-cases, inl, inr, Bool, true, false, Option, none, some, List, [],
  ◌∷◌, All, All-map, map, length, if◌then◌else◌, arith,
}
use ros2_resilience.Python.Float.{Float, IsFloat, IsOrdered}
use ros2_resilience.Core.Results.{
  Metrics, TrialResult, MetricSummary, present, least, greatest, of_nonempty, summarize, aggregate,
}

module _ {F : Type 0} where
  -- `none` if every value is missing, otherwise one of the values
  abbrev pub Among : List (Option F) → Option F → Type 0
  Among values none = All (λ v. v ≡ none) values
  Among values (some x) = Mem (some x) values

  -- how many values are there
  abbrev pub there : List (Option F) → ℕ
  there [] = 0
  there (none ∷ vs) = there vs
  there (some v ∷ vs) = 1 + there vs

  -- how many are missing
  abbrev pub absent : List (Option F) → ℕ
  absent [] = 0
  absent (none ∷ vs) = 1 + absent vs
  absent (some v ∷ vs) = absent vs

  -- every value that is there is so related to `m`
  abbrev pub Bounds : (F → F → Bool) → Option F → List (Option F) → Type 0
  Bounds r none vs = Unit
  Bounds r (some m) [] = Unit
  Bounds r (some m) (none ∷ vs) = Bounds r (some m) vs
  Bounds r (some m) (some v ∷ vs) = (r m v ≡ true) × Bounds r (some m) vs

  -- what the summary says of the values of one metric, with the order of the values
  pub record IsSummary (le : F → F → Bool) (values : List (Option F)) (s : MetricSummary F)
      : Type 0 where
    pub counted : s.count ≡ there values
    pub missed : s.missing ≡ absent values
    pub low : Among values s.minimum
    pub high : Among values s.maximum
    pub least : Bounds le s.minimum values
    pub greatest : Bounds (λ a b. le b a) s.maximum values

  length-present :
      (values : List (Option F))
      → (length (present values) ≡ there values) × (length values ≡ there values + absent values)
  unfolding present
  length-present [] = (omega arith, omega arith)
  length-present (none ∷ vs) = let (a, b) = length-present vs in (a, omega (arith, b))
  length-present (some v ∷ vs) =
      let (a, b) = length-present vs in (omega (arith, a), omega (arith, b))

  present-Bounds :
      (r : F → F → Bool) (m : F) (values : List (Option F))
      → All (λ x. r m x ≡ true) (present values)
      → Bounds r (some m) values
  unfolding present
  present-Bounds r m [] h = tt
  present-Bounds r m (none ∷ vs) h = present-Bounds r m vs h
  present-Bounds r m (some v ∷ vs) h = (h.0, present-Bounds r m vs h.1)

  present-Mem : (values : List (Option F)) → All (λ x. Mem (some x) values) (present values)
  unfolding present
  present-Mem [] = tt
  present-Mem (none ∷ vs) =
      All-map (λ x here. mem-cons_of_mem none here) (present vs) (present-Mem vs)
  present-Mem (some v ∷ vs) = (
    mem-cons_self,
    All-map (λ x here. mem-cons_of_mem (some v) here) (present vs) (present-Mem vs),
  )

  nothing_present :
      (values : List (Option F)) → length (present values) ≡ 0 → All (λ v. v ≡ none) values
  unfolding present
  nothing_present [] h = tt
  nothing_present (none ∷ vs) h = (refl, nothing_present vs h)
  nothing_present (some v ∷ vs) h = absurd (omega arith)

  -- A choice that has every property that all its candidates have.
  abbrev Chooses : (F → List F → F) → Type 1
  Chooses g = (P : F → Type 0) (m : F) (xs : List F) → P m → All P xs → P (g m xs)

module _ {F : Type 0} ⦃f : Float F⦄ where
  of_nonempty-Among :
      (g : F → List F → F) (values : List (Option F)) (there : List F)
      → Chooses g
      → present values ≡ there
      → All (λ x. Mem (some x) values) there
      → Among values (of_nonempty g there)
  of_nonempty-Among g values [] chooses same all = nothing_present values (ap length same)
  of_nonempty-Among g values (x ∷ xs) chooses same all =
      chooses (λ y. Mem (some y) values) x xs all.0 all.1

  either : (P : F → Type 0) (b : Bool) (x y : F) → P x → P y → P (if b then x else y)
  either P true x y here there = here
  either P false x y here there = there

  least-Chooses : Chooses (least {F = F})
  unfolding least
  least-Chooses P m [] h all = h
  least-Chooses P m (x ∷ xs) h all =
      least-Chooses P (if f.lt x m then x else m) xs (either P (f.lt x m) x m all.0 h) all.1

  greatest-Chooses : Chooses (greatest {F = F})
  unfolding greatest
  greatest-Chooses P m [] h all = h
  greatest-Chooses P m (x ∷ xs) h all =
      greatest-Chooses P (if f.lt m x then x else m) xs (either P (f.lt m x) x m all.0 h) all.1

  -- a finite value, if it is there
  abbrev pub IsMeasured : Option F → Type 0
  IsMeasured none = Unit
  IsMeasured (some x) = f.is_finite x ≡ true

  present-finite :
      (values : List (Option F))
      → All IsMeasured values
      → All (λ x. f.is_finite x ≡ true) (present values)
  unfolding present
  present-finite [] h = tt
  present-finite (none ∷ vs) h = present-finite vs h.1
  present-finite (some v ∷ vs) h = (h.0, present-finite vs h.1)

  -- the summary of the values of one metric, one for each trial
  abbrev pub Summarizes : List (TrialResult F) → (Metrics F → Option F) → MetricSummary F → Type 0
  Summarizes trials metric s = IsSummary f.le (map (λ t. metric t.metrics) trials) s

  -- the metrics of a trial that are there are finite
  pub record AreMeasured (t : TrialResult F) : Type 0 where
    pub detection : IsMeasured t.metrics.detection_latency_sec
    pub command : IsMeasured t.metrics.recovery_command_latency_sec
    pub observation : IsMeasured t.metrics.command_observation_latency_sec
    pub stop : IsMeasured t.metrics.time_to_stop_sec

module _ {F : Type 0} ⦃f : Float F⦄ (floats : IsFloat F) (order : IsOrdered F) where
  -- `m` is at most every value of a list, in one of the two directions
  abbrev IsExtreme : (F → F → Bool) → F → F → List F → Type 0
  IsExtreme le l m xs = (le l m ≡ true) × All (λ x. le l x ≡ true) xs

  -- `k` is finite and at most both, in one of the two directions
  abbrev IsChoice : (F → F → Bool) → F → F → F → Type 0
  IsChoice le x m k = (f.is_finite k ≡ true) × (le k m ≡ true) × (le k x ≡ true)

  lower :
      (x m : F)
      → f.is_finite x ≡ true
      → f.is_finite m ≡ true
      → IsChoice f.le x m (if f.lt x m then x else m)
  lower x m hx hm = elim (Bool-cases (f.lt x m)) [
    | inl below ↦ rw below (hx, order.lt_le x m below, order.le_refl x hx)
    | inr above ↦ rw above (hm, order.le_refl m hm, order.not_lt_le x m hx hm above)
  ]

  higher :
      (x m : F)
      → f.is_finite x ≡ true
      → f.is_finite m ≡ true
      → IsChoice (λ a b. f.le b a) x m (if f.lt m x then x else m)
  higher x m hx hm = elim (Bool-cases (f.lt m x)) [
    | inl above ↦ rw above (hx, order.lt_le m x above, order.le_refl x hx)
    | inr below ↦ rw below (hm, order.le_refl m hm, order.not_lt_le m x hm hx below)
  ]

  least-IsExtreme :
      (m : F) (xs : List F)
      → f.is_finite m ≡ true
      → All (λ x. f.is_finite x ≡ true) xs
      → IsExtreme f.le (least m xs) m xs
  unfolding least
  least-IsExtreme m [] hm h = (order.le_refl m hm, tt)
  least-IsExtreme m (x ∷ xs) hm h =
      let k : F = if f.lt x m then x else m in
      let (finite, to_m, to_x) = lower x m h.0 hm in
      let (start, all) = least-IsExtreme k xs finite h.1 in
      (
        floats.le_trans (least k xs) k m start to_m,
        (floats.le_trans (least k xs) k x start to_x, all),
      )

  greatest-IsExtreme :
      (m : F) (xs : List F)
      → f.is_finite m ≡ true
      → All (λ x. f.is_finite x ≡ true) xs
      → IsExtreme (λ a b. f.le b a) (greatest m xs) m xs
  unfolding greatest
  greatest-IsExtreme m [] hm h = (order.le_refl m hm, tt)
  greatest-IsExtreme m (x ∷ xs) hm h =
      let k : F = if f.lt m x then x else m in
      let (finite, to_m, to_x) = higher x m h.0 hm in
      let (start, all) = greatest-IsExtreme k xs finite h.1 in
      (
        floats.le_trans m k (greatest k xs) to_m start,
        (floats.le_trans x k (greatest k xs) to_x start, all),
      )

  of_nonempty-Bounds :
      (le : F → F → Bool) (g : F → List F → F) (values : List (Option F)) (found : List F)
      → present values ≡ found
      → ((m : F) (xs : List F)
          → f.is_finite m ≡ true
          → All (λ x. f.is_finite x ≡ true) xs
          → IsExtreme le (g m xs) m xs)
      → All (λ x. f.is_finite x ≡ true) found
      → Bounds le (of_nonempty g found) values
  of_nonempty-Bounds le g values [] same extreme h = tt
  of_nonempty-Bounds le g values (x ∷ xs) same extreme h =
      present-Bounds le (g x xs) values
        (subst (All (λ y. le (g x xs) y ≡ true)) (sym same) (extreme x xs h.0 h.1))

  summarize-IsSummary :
      (fmean : List F → F) (values : List (Option F))
      → All IsMeasured values
      → IsSummary f.le values (summarize fmean values)
  unfolding summarize
  summarize-IsSummary fmean values measured =
      let (counted, total) = length-present values in
      let finite = present-finite values measured in
      record {
        counted = counted;
        missed = omega (arith, counted, total);
        low =
            of_nonempty-Among least values (present values) least-Chooses refl (present-Mem values);
        high =
            of_nonempty-Among greatest values (present values) greatest-Chooses refl
              (present-Mem values);
        least = of_nonempty-Bounds f.le least values (present values) refl least-IsExtreme finite;
        greatest =
            of_nonempty-Bounds (λ a b. f.le b a) greatest values (present values) refl
              greatest-IsExtreme finite;
      }

  summarize-Summarizes :
      (fmean : List F → F) (trials : List (TrialResult F)) (metric : Metrics F → Option F)
      → All (λ t. IsMeasured (metric t.metrics)) trials
      → Summarizes trials metric (summarize fmean (map (λ t. metric t.metrics) trials))
  summarize-Summarizes fmean trials metric h =
      summarize-IsSummary fmean (map (λ t. metric t.metrics) trials) (mapped trials h)
    where
      mapped :
          (ts : List (TrialResult F))
          → All (λ t. IsMeasured (metric t.metrics)) ts
          → All IsMeasured (map (λ t. metric t.metrics) ts)
      mapped [] h = tt
      mapped (t ∷ ts) h = (h.0, mapped ts h.1)

  -- In the aggregates of a batch whose metrics are finite where they are there, with floats that
  -- compare as IEEE 754 has it and whatever function takes the mean: of each of the four metrics, the
  -- count is the number of trials that have it, and the number of the missing that of those that do
  -- not; the minimum and the maximum are each the value of some trial, or None when no trial has one;
  -- and no trial's value is below the minimum or above the maximum.
  pub aggregate-Summarizes :
      (fmean : List F → F) (trials : List (TrialResult F))
      → All AreMeasured trials
      → Summarizes trials
          (λ m. m.detection_latency_sec)
          (aggregate fmean trials).detection_latency_sec
        × Summarizes trials
            (λ m. m.recovery_command_latency_sec)
            (aggregate fmean trials).recovery_command_latency_sec
        × Summarizes trials
            (λ m. m.command_observation_latency_sec)
            (aggregate fmean trials).command_observation_latency_sec
        × Summarizes trials (λ m. m.time_to_stop_sec) (aggregate fmean trials).time_to_stop_sec
  unfolding aggregate
  aggregate-Summarizes fmean trials h = (
    summarize-Summarizes fmean trials (λ m. m.detection_latency_sec)
        (All-map (λ t k. k.detection) trials h),
    summarize-Summarizes fmean trials (λ m. m.recovery_command_latency_sec)
        (All-map (λ t k. k.command) trials h),
    summarize-Summarizes fmean trials (λ m. m.command_observation_latency_sec)
        (All-map (λ t k. k.observation) trials h),
    summarize-Summarizes fmean trials (λ m. m.time_to_stop_sec) (All-map (λ t k. k.stop) trials h),
  )
