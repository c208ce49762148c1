-- ===== src/Faults/Stale.antt =====
-- ros2_resilience/faults/stale.py: hold one input sample while enabled. `none` is `_UNSET`. The code
-- reads a message through `deepcopy` only, so what `deepcopy` makes of the message, a value or an
-- exception, stands for the message. A value that was copied is copied again without an exception.
pub mod Samples
use ros2_resilience.Prelude.{Bool, true, false, Option, none, some, if◌then◌else◌}
use ros2_resilience.Python.Result.{Result, ok, raise, type_error}
use ros2_resilience.Python.Value.{Value, boolean}

pub record StaleHold (T : Type 0) : Type 0 where
  pub enabled : Bool
  pub latest : Option T
  pub held : Option T

module _ {T : Type 0} where
  -- `StaleHold.__init__`
  abbrev pub init : StaleHold T
  init = record { enabled = false; latest = none; held = none }

  -- the `if`/`elif` of `set_enabled`: the sample held from then on. The arguments are the new flag,
  -- the old one, and the latest sample.
  unfoldable pub next_held : Bool → Bool → Option T → Option T → Option T
  next_held true false (some m) held = some m
  next_held true false none held = held
  next_held true true latest held = held
  next_held false true latest held = none
  next_held false false latest held = held

  unfoldable pub set_enabled : {F : Type 0} → StaleHold T → Value F → Result (StaleHold T)
  unfolding next_held
  set_enabled s (boolean b) =
      ok (record s { enabled = b; held = next_held b s.enabled s.latest s.held })
  set_enabled s _ = raise type_error

  -- the sample that an enabled hold sends
  sample_or : Option T → T → T
  sample_or none m = m
  sample_or (some h) m = h

  -- `receive`, once the message is copied
  unfoldable pub take : StaleHold T → T → StaleHold T × T
  unfolding sample_or
  take s message =
      if s.enabled
      then (
        record s { latest = some message; held = some (sample_or s.held message) },
        sample_or s.held message,
      )
      else (record s { latest = some message }, message)

  unfoldable pub receive : StaleHold T → Result T → Result (StaleHold T × T)
  unfolding take
  receive s (raise e) = raise e
  receive s (ok message) = ok (take s message)
