-- ===== src/Core/Validation/Sound.antt =====
-- The scenarios that core/validation.py accepts, and what it raises for the others.
use package.text.Mathlib.Text.{◌==◌ as str_eq}
use ros2_resilience.Python.Float.{Float}
use ros2_resilience.Python.Result.{◌>>=◌}
use ros2_resilience.Python.Value.{Value, text}
use ros2_resilience.Core.Scenario.{dropout, Expectations}
use ros2_resilience.Core.Accepted.{Expects}

module _ {F : Type 0} ⦃f : Float F⦄ where
  -- what `_parse_expect` gives for a fault
  abbrev HasAll : Expectations F → Type 0
  HasAll e = Expects dropout e.fault e.watchdog e.recovery e.robot
