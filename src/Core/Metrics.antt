-- ===== src/Core/Metrics.antt =====
-- ros2_resilience/core/metrics.py: durations between the events of a trial.
use ros2_resilience.Prelude.{
  ℕ, ℤ, pos, ◌+ℤ◌, ◌-ℤ◌, leb_ℤ, ltb_ℤ, Bool, ◌&&◌, ◌||◌, Option, none, some, List, [], ◌∷◌, leb,
  filter, if◌then◌else◌,
}
use ros2_resilience.Python.Float.{Float, to_seconds}
use ros2_resilience.Python.Sorting.{sorted}
use ros2_resilience.Core.Events.{
  Event, EventKind, watchdog_violation, recovery_published, command_observed, raw_odometry, is_kind,
}

abbrev pub gap_exceeds : ℤ → ℕ → ℤ → Bool
gap_exceeds max_gap previous time = ltb_ℤ max_gap (time -ℤ pos previous)

module _ {F : Type 0} where
  abbrev pub receipt_of : Event F → ℕ
  receipt_of e = e.receipt_ns

  -- `min(events, key=receipt_ns, default=None)`: the first of those received earliest
  unfoldable pub earliest : List (Event F) → Option (Event F)
  earliest [] = none
  earliest (e ∷ es) = elim (earliest es) [
    | none ↦ some e
    | some m ↦ some (if leb e.receipt_ns m.receipt_ns then e else m)
  ]

  abbrev pub from_time : EventKind → ℤ → Event F → Bool
  from_time kind after_ns e = is_kind e.kind kind && leb_ℤ after_ns (pos e.receipt_ns)

  -- `_first_after`
  unfoldable pub first_after : List (Event F) → EventKind → ℤ → Option (Event F)
  unfolding earliest filter
  first_after events kind after_ns = earliest (filter (from_time kind after_ns) events)

module _ {F : Type 0} ⦃f : Float F⦄ where
  -- the seconds from a time to an event
  abbrev pub since : ℤ → Event F → F
  since start e = to_seconds (pos e.receipt_ns -ℤ start)

  abbrev pub latency : ℤ → Option (Event F) → Option F
  latency start none = none
  latency start (some e) = some (since start e)

  unfoldable pub detection_latency_sec : List (Event F) → ℤ → Option F
  unfolding first_after to_seconds
  detection_latency_sec events activation =
      latency activation (first_after events watchdog_violation activation)

  unfoldable pub recovery_command_latency_sec : List (Event F) → ℤ → Option F
  unfolding first_after to_seconds
  recovery_command_latency_sec events detection =
      latency detection (first_after events recovery_published detection)

  -- `payload.get(key, float("inf"))`
  abbrev or_inf : Option F → F
  or_inf none = f.inf
  or_inf (some x) = x

  -- both velocities under their thresholds
  abbrev pub is_stopped : F → F → Event F → Bool
  is_stopped linear angular e =
      f.lt (f.abs (or_inf e.payload.linear_x)) linear
      && f.lt (f.abs (or_inf e.payload.angular_z)) angular

  abbrev pub stopped_from : EventKind → ℤ → F → F → Event F → Bool
  stopped_from kind after_ns linear angular e =
      from_time kind after_ns e && is_stopped linear angular e

  unfoldable pub command_observation_latency_sec : List (Event F) → ℤ → F → F → Option F
  unfolding earliest filter to_seconds
  command_observation_latency_sec events detection linear angular =
      latency detection
        (earliest (filter (stopped_from command_observed detection linear angular) events))

  abbrev pub stop : ℤ → Option (Event F) → Option (F × ℕ)
  stop activation none = none
  stop activation (some e) = some (since activation e, e.receipt_ns)

  unfoldable pub time_to_stop_sec : List (Event F) → ℤ → F → F → Option (F × ℕ)
  unfolding earliest filter to_seconds
  time_to_stop_sec events activation linear angular =
      stop activation
        (earliest (filter (stopped_from raw_odometry activation linear angular) events))

  -- a velocity at or above its threshold
  abbrev pub is_moving : F → F → Event F → Bool
  is_moving linear angular e =
      f.le linear (f.abs (or_inf e.payload.linear_x))
      || f.le angular (f.abs (or_inf e.payload.angular_z))

  -- the loop over the samples, from the one received at `previous`
  unfoldable pub broken_from : F → F → ℤ → ℕ → ℤ → ℕ → List (Event F) → Option F
  unfolding to_seconds
  broken_from linear angular max_gap stop_ns deadline previous [] =
      if gap_exceeds max_gap previous deadline
      then some (to_seconds (pos previous -ℤ pos stop_ns))
      else none
  broken_from linear angular max_gap stop_ns deadline previous (e ∷ es) =
      let rest = broken_from linear angular max_gap stop_ns deadline e.receipt_ns es in
      if gap_exceeds max_gap previous (pos e.receipt_ns)
      then some (to_seconds (pos previous -ℤ pos stop_ns))
      else if is_moving linear angular e
      then some (to_seconds (pos e.receipt_ns -ℤ pos stop_ns))
      else rest

  abbrev pub in_hold : ℕ → ℤ → Event F → Bool
  in_hold stop_ns deadline e =
      is_kind e.kind raw_odometry && (leb stop_ns e.receipt_ns && leb_ℤ (pos e.receipt_ns) deadline)

  unfoldable pub stop_hold_broken_at_sec : List (Event F) → ℕ → ℤ → F → F → ℤ → Option F
  unfolding broken_from sorted filter
  stop_hold_broken_at_sec events stop_ns deadline linear angular period =
      broken_from linear angular (period +ℤ period +ℤ period) stop_ns deadline stop_ns
        (sorted receipt_of (filter (in_hold stop_ns deadline) events))
