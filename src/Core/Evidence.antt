-- ===== src/Core/Evidence.antt =====
-- The evidence of a fault in ros2_resilience/core/assertions.py: `_dropout_observable`,
-- `_latency_observable` and `_stale_observable`, on the events of a window.
use ros2_resilience.Prelude.{
  ℤ, pos, ◌-ℤ◌, leb_ℤ, eqb_ℤ, Bool, true, false, not, ◌&&◌, ◌||◌, Option, none, some, List, [], ◌∷◌,
  map, leb, ltb, filter, length, if◌then◌else◌,
}
use ros2_resilience.Python.Float.{Float, nought, one, nanos_per_sec}
use ros2_resilience.Python.Result.{Result, ok, raise, type_error, ◌>>=◌}
use ros2_resilience.Core.Events.{
  Event, Slot, missing, null, value, raw_odometry, faulted_odometry, injector_counters, is_kind,
}
use ros2_resilience.Core.Scenario.{ScenarioConfig}

-- `payload.get("dropped", 0) <= 0`, which raises on `None`
abbrev pub no_drops : Slot ℤ → Result Bool
no_drops missing = ok true
no_drops null = raise type_error
no_drops (value z) = ok (leb_ℤ z (pos 0))

module _ {F : Type 0} where
  abbrev pub is_empty : List (Event F) → Bool
  is_empty [] = true
  is_empty (e ∷ es) = false

  abbrev pub last? : List (Event F) → Option (Event F)
  last? [] = none
  last? (e ∷ []) = some e
  last? (e ∷ e' ∷ es) = last? (e' ∷ es)

  -- no counters, or the last ones show no drop
  abbrev pub not_advanced : Option (Event F) → Result Bool
  not_advanced none = ok true
  not_advanced (some e) = no_drops e.payload.dropped

  -- `_dropout_observable`
  unfoldable pub dropout_observable : List (Event F) → Result Bool
  unfolding filter
  dropout_observable window =
      let raw = filter (λ e. is_kind e.kind raw_odometry) window in
      let faulted = filter (λ e. is_kind e.kind faulted_odometry) window in
      let counters = filter (λ e. is_kind e.kind injector_counters) window in
      if is_empty raw
      then ok false
      else (not_advanced (last? counters) >>= λ stuck.
          ok (not stuck && ltb (length faulted) (length raw)))

-- stamps as keys of a dictionary and elements of a set; `none` is `None`
abbrev same_stamp : Option ℤ → Option ℤ → Bool
same_stamp none none = true
same_stamp (some a) (some b) = eqb_ℤ a b
same_stamp _ _ = false

unfoldable pub has_stamp : Option ℤ → List (Option ℤ) → Bool
has_stamp s [] = false
has_stamp s (t ∷ ts) = same_stamp s t || has_stamp s ts

-- the elements of the set that a comprehension builds
unfoldable pub distinct : List (Option ℤ) → List (Option ℤ)
unfolding has_stamp
distinct [] = []
distinct (s ∷ ss) = let rest = distinct ss in if has_stamp s rest then rest else s ∷ rest

module _ {F : Type 0} where
  abbrev stamps : List (Event F) → List (Option ℤ)
  stamps = map (λ e. e.payload.stamp_ns)

  -- `_stale_observable`; its sort does not change what is counted
  unfoldable pub stale_observable : List (Event F) → Bool
  unfolding filter distinct
  stale_observable window =
      let faulted = filter (λ e. is_kind e.kind faulted_odometry) window in
      let raw = filter (λ e. is_kind e.kind raw_odometry) window in
      leb 2 (length faulted)
      && (leb (length (distinct (stamps faulted))) 1 && leb 2 (length (distinct (stamps raw))))

  -- `raw_by_stamp.get(stamp)`: of the raw samples with one stamp the last is kept
  unfoldable pub raw_by_stamp : Option ℤ → List (Event F) → Option (Event F)
  raw_by_stamp s [] = none
  raw_by_stamp s (e ∷ es) = elim (raw_by_stamp s es) [
    | some later ↦ some later
    | none ↦ if is_kind e.kind raw_odometry && same_stamp e.payload.stamp_ns s then some e else none
  ]

  abbrev delayed_by : ℤ → Event F → Option (Event F) → Bool
  delayed_by threshold faulted none = false
  delayed_by threshold faulted (some raw) =
      leb_ℤ threshold (pos faulted.receipt_ns -ℤ pos raw.receipt_ns)

  -- the loop of `_latency_observable`
  unfoldable pub shows_delay : ℤ → List (Event F) → List (Event F) → Bool
  unfolding raw_by_stamp ◌-ℤ◌
  shows_delay threshold events [] = false
  shows_delay threshold events (e ∷ es) =
      (is_kind e.kind faulted_odometry
        && delayed_by threshold e (raw_by_stamp e.payload.stamp_ns events))
      || shows_delay threshold events es

module _ {F : Type 0} ⦃f : Float F⦄ where
  abbrev or_nought : Option F → F
  or_nought none = nought
  or_nought (some x) = x

  -- `max(int((delay_sec - tolerance_sec) * 1e9), 0)`, with a tolerance of five check periods or
  -- 10 ms if that is more
  unfoldable pub delay_threshold_ns : ScenarioConfig F → Result ℤ
  delay_threshold_ns s =
      let periods = f.mul s.watchdog.check_period_sec (f.of_int (pos 5)) in
      let floor = f.div one (f.of_int (pos 100)) in
      let tolerance = if f.lt periods floor then floor else periods in
      let delay = or_nought s.fault.parameters.delay_sec in
      f.trunc (f.mul (f.sub delay tolerance) (f.of_int (pos nanos_per_sec))) >>= λ threshold.
      ok (if leb_ℤ (pos 0) threshold then threshold else pos 0)

  -- `_latency_observable`
  unfoldable pub latency_observable :
      List (Event F) → List (Event F) → ScenarioConfig F → Result Bool
  unfolding delay_threshold_ns shows_delay
  latency_observable events window s = do
    threshold ← delay_threshold_ns s
    ok (shows_delay threshold events window)
