-- ===== src/Core/Checks.antt =====
-- ros2_resilience/core/assertions.py: the results, and the checks of the violations and of the fault's
-- evidence. The texts of the reasons are not modelled.
use ros2_resilience.Prelude.{
  ℤ, pos, ◌+ℤ◌, ◌-ℤ◌, leb_ℤ, ltb_ℤ, Bool, true, false, ◌&&◌, String, Option, none, some, List,
  filter,
}
use ros2_resilience.Python.Float.{Float, to_seconds, seconds_to_ns}
use ros2_resilience.Python.Result.{Result, ok, raise, assertion_error, ◌>>=◌}
use ros2_resilience.Core.Events.{Event, watchdog_violation, recovery_published, is_kind}
use ros2_resilience.Core.Evidence.{
  is_empty, dropout_observable, latency_observable, stale_observable,
}
use ros2_resilience.Core.Metrics.{earliest, from_time}
use ros2_resilience.Core.Scenario.{ScenarioConfig, FaultKind, healthy, dropout, latency, stale}
use text.Mathlib.Text.{◌==◌ as str_eq}

pub data AssertionType : Type 0 where
  no_early_violation fault_observable watchdog_violation_detected : AssertionType
  recovery_command_published recovery_command_observed robot_stopped : AssertionType
  robot_stopped_held no_violation_during_observation no_recovery_command : AssertionType

pub record AssertionResult (F : Type 0) : Type 0 where
  pub type : AssertionType
  pub passed : Bool
  pub observed_value : Option F
  pub threshold : Option F

pub record Timeline : Type 0 where
  pub baseline_start_ns : ℤ
  pub activation_ns : ℤ
  pub deactivation_ns : Option ℤ
  pub observation_deadline_ns : ℤ

-- `assert x is not None`
abbrev pub assert_set : {A : Type 0} → Option A → Result A
assert_set none = raise assertion_error
assert_set (some a) = ok a

abbrev has_reason : String → Option String → Bool
has_reason expected none = false
has_reason expected (some reason) = str_eq reason expected

module _ {F : Type 0} where
  abbrev pub result_of : AssertionType → Bool → AssertionResult F
  result_of t b = record { type = t; passed = b; observed_value = none; threshold = none }

  abbrev pub measured : AssertionType → Bool → F → F → AssertionResult F
  measured t b observed limit = record {
    type = t;
    passed = b;
    observed_value = some observed;
    threshold = some limit;
  }

  abbrev pub between : ℤ → ℤ → Event F → Bool
  between from_ns to_ns e = leb_ℤ from_ns (pos e.receipt_ns) && leb_ℤ (pos e.receipt_ns) to_ns

  abbrev receipt? : Option (Event F) → Option ℤ
  receipt? none = none
  receipt? (some e) = some (pos e.receipt_ns)

  -- `_first_violation_receipt_ns`: the minimum of the receipt times
  unfoldable pub first_violation_receipt_ns : List (Event F) → ℤ → Option ℤ
  unfolding earliest filter
  first_violation_receipt_ns events after_ns =
      receipt? (earliest (filter (from_time watchdog_violation after_ns) events))

  abbrev pub is_early : Timeline → Event F → Bool
  is_early timeline e =
      is_kind e.kind watchdog_violation && ltb_ℤ (pos e.receipt_ns) timeline.activation_ns

  unfoldable pub check_no_early_violation : List (Event F) → Timeline → AssertionResult F
  unfolding filter
  check_no_early_violation events timeline =
      result_of no_early_violation (is_empty (filter (is_early timeline) events))

  unfoldable pub check_no_violation_during_observation :
      List (Event F) → Timeline → AssertionResult F
  unfolding filter
  check_no_violation_during_observation events timeline =
      let during = λ (e : Event F).
        is_kind e.kind watchdog_violation
        && between timeline.baseline_start_ns timeline.observation_deadline_ns e in
      result_of no_violation_during_observation (is_empty (filter during events))

  unfoldable pub check_no_recovery_command : List (Event F) → Timeline → AssertionResult F
  unfolding filter
  check_no_recovery_command events timeline =
      let during = λ (e : Event F).
        is_kind e.kind recovery_published
        && between timeline.baseline_start_ns timeline.observation_deadline_ns e in
      result_of no_recovery_command (is_empty (filter during events))

module _ {F : Type 0} ⦃f : Float F⦄ where
  -- the evidence that the type of the fault asks for
  unfoldable pub observable :
      FaultKind → ScenarioConfig F → List (Event F) → List (Event F) → Result Bool
  unfolding dropout_observable latency_observable stale_observable
  observable dropout s events window = dropout_observable window
  observable latency s events window = latency_observable events window s
  observable stale s events window = ok (stale_observable window)
  observable healthy s events window = ok false

  -- `_fault_observable`
  unfoldable pub check_fault_observable :
      ScenarioConfig F → List (Event F) → Timeline → Result (AssertionResult F)
  unfolding observable seconds_to_ns filter
  check_fault_observable s events timeline = do
    expected ← assert_set s.expect.fault
    within ← seconds_to_ns expected.within_sec
    let window = filter (between timeline.activation_ns (timeline.activation_ns +ℤ within)) events
    seen ← observable s.fault.type s events window
    ok (result_of fault_observable seen)

  abbrev pub is_expected : String → ℤ → ℤ → Event F → Bool
  is_expected violation from_ns to_ns e =
      is_kind e.kind watchdog_violation
      && (between from_ns to_ns e && has_reason violation e.payload.reason)

  -- the result from the first of the matching events
  unfoldable pub detected : ℤ → F → Option (Event F) → AssertionResult F
  unfolding to_seconds
  detected activation limit none = result_of watchdog_violation_detected false
  detected activation limit (some e) =
      measured watchdog_violation_detected true (to_seconds (pos e.receipt_ns -ℤ activation)) limit

  -- `_watchdog_violation_detected`
  unfoldable pub check_watchdog_violation_detected :
      ScenarioConfig F → List (Event F) → Timeline → Result (AssertionResult F)
  unfolding detected earliest filter seconds_to_ns
  check_watchdog_violation_detected s events timeline = do
    expected ← assert_set s.expect.watchdog
    within ← seconds_to_ns expected.within_sec
    let from_ns = timeline.activation_ns
    let matches = filter (is_expected expected.violation from_ns (from_ns +ℤ within)) events
    ok (detected from_ns expected.within_sec (earliest matches))

  -- a latency against its limit; a missing one fails
  unfoldable pub in_time : AssertionType → F → Option F → AssertionResult F
  in_time t limit none = result_of t false
  in_time t limit (some taken) = measured t (f.le taken limit) taken limit
