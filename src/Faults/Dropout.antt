-- ===== src/Faults/Dropout.antt =====
-- ros2_resilience/faults/dropout.py: drop an item with a fixed probability. The injected random
-- source is a function on the state of a generator.
pub mod Decision
use ros2_resilience.Prelude.{Bool, true, false, not, ◌&&◌, ◌||◌, if◌then◌else◌}
use ros2_resilience.Python.Float.{Float, nought, one}
use ros2_resilience.Python.Result.{Result, ok, raise, type_error, value_error, ◌>>=◌}
use ros2_resilience.Python.Value.{Value, boolean, integer, floating, validate_fraction}

pub record Dropout (F : Type 0) : Type 0 where
  pub probability : F

module _ {F : Type 0} ⦃f : Float F⦄ where
  -- `Dropout.__init__`
  unfoldable pub init : Value F → Result (Dropout F)
  unfolding validate_fraction
  init probability = do p ← validate_fraction probability; ok (record { probability = p })

  compare_sample : Dropout F → F → Result Bool
  compare_sample d x =
      if f.is_finite x && (f.le nought x && f.lt x one)
      then ok (f.lt x d.probability)
      else raise value_error

  -- `_validate_random_value`, and the comparison of a value that passes
  unfoldable pub judge : Dropout F → Value F → Result Bool
  unfolding compare_sample
  judge d (integer z) = compare_sample d (f.of_int z)
  judge d (floating x) = compare_sample d x
  judge d _ = raise type_error

  module _ {R : Type 0} (random_value : R → Value F × R) where
    -- `should_drop`; the state of the generator comes back beside an exception too
    unfoldable pub should_drop : Dropout F → Value F → R → Result Bool × R
    unfolding judge
    should_drop d (boolean enabled) r =
        if not enabled || f.eqb d.probability nought
        then (ok false, r)
        else if f.eqb d.probability one
        then (ok true, r)
        else (let (value, r') = random_value r in (judge d value, r'))
    should_drop d _ r = (raise type_error, r)
