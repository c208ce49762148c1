-- ===== src/Faults/Random.antt =====
-- The source of randomness that faults/injector.py hands to its parts: a `random.Random`, whose
-- state is a value of `R`. The generator itself is not modelled.
use ros2_resilience.Prelude.{ℕ, true, ◌≡◌, ℤ, ◌≤ℤ◌}
use ros2_resilience.Python.Float.{Float, nought, one}
use ros2_resilience.Python.Value.{Value, floating}

pub record Random (F R : Type 0) : Type 0 where
  -- `rng.random()` and `rng.uniform(a, b)`, with the state that they leave
  pub random : R → Value F × R
  pub uniform : ℤ → ℤ → R → Value F × R
  -- the state after `rng.seed(n)`, and that of `random.Random(n)`
  pub seed : ℕ → R

-- What Python documents: `0.0 <= random() < 1.0`, and `a <= uniform(a, b) <= b` for `a <= b`.
pub record IsRandom (F R : Type 0) ⦃f : Float F⦄ ⦃g : Random F R⦄ : Type 0 where
  pub random_range :
      (r : R)
      → (x : F) × ((g.random r).0 ≡ floating x)
        × (f.is_finite x ≡ true)
        × (f.le nought x ≡ true)
        × (f.lt x one ≡ true)
  pub uniform_range :
      (a b : ℤ) (r : R)
      → a ≤ℤ b
      → (x : F) × ((g.uniform a b r).0 ≡ floating x)
        × (f.is_finite x ≡ true)
        × (f.int_le a x ≡ true)
        × (f.le_int x b ≡ true)
