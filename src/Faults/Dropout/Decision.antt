-- ===== src/Faults/Dropout/Decision.antt =====
-- What `should_drop` of faults/dropout.py decides, with a generator that keeps what Python documents.
use ros2_resilience.Prelude.{
  ◌≡◌, refl, Bool, true, false, not, ◌&&◌, ◌||◌, Bool-cases, inl, inr, if◌then◌else◌,
}
use ros2_resilience.Python.Float.{Float, nought, one}
use ros2_resilience.Python.Result.{ok}
use ros2_resilience.Python.Value.{boolean, floating}
use ros2_resilience.Faults.Dropout.{Dropout, should_drop}
use ros2_resilience.Faults.Random.{Random, IsRandom}

module _ {F : Type 0} ⦃f : Float F⦄ where
  -- the answer does not depend on a sample
  abbrev pub is_determined : Dropout F → Bool → Bool
  is_determined d enabled = not enabled || f.eqb d.probability nought || f.eqb d.probability one

module _ {F R : Type 0} ⦃f : Float F⦄ ⦃g : Random F R⦄ where
  -- The call does not raise. It answers yes exactly if it is enabled, the probability is not 0.0,
  -- and the probability is 1.0 or the sample is less than it. The generator advances by one sample
  -- if the answer depends on it, and is left alone otherwise.
  pub should_drop_decides :
      IsRandom F R
      → (d : Dropout F) (enabled : Bool) (r : R)
      → (x : F) × ((g.random r).0 ≡ floating x)
        × (should_drop g.random d (boolean enabled) r ≡ (
          ok (
              enabled
              && (not (f.eqb d.probability nought)
                  && (f.eqb d.probability one || f.lt x d.probability))),
          if is_determined d enabled then r else (g.random r).1,
        ))
  unfolding should_drop
  should_drop_decides fair d false r =
      let (x, sample, finite, lo, hi) = fair.random_range r in (x, sample, refl)
  should_drop_decides fair d true r =
      let (x, sample, finite, lo, hi) = fair.random_range r in
      (
        x,
        sample,
        elim (Bool-cases (f.eqb d.probability nought)) [
          | inl never ↦ rw never
          | inr sometimes ↦ elim (Bool-cases (f.eqb d.probability one)) [
            | inl always ↦ rw (sometimes, always)
            | inr unsure ↦ rw (sometimes, unsure, sample, finite, lo, hi)
          ]
        ],
      )
