-- ===== src/Core/Verdict.antt =====
-- The measurements of core/metrics.py take the first of the matching events and compare it with a
-- limit (core/assertions.py). Against descriptions that look at every event.
use ros2_resilience.Prelude.{
  ℕ, ℤ, pos, ◌-ℤ◌, ◌+ℤ◌, ◌≤◌, Bool, true, false, not, ◌&&◌, ◌||◌, Option, none, some, List, [], ◌∷◌,
  map, if◌then◌else◌, filter, any, any-filter, ◌≡◌, refl, arith, int_laws, -ℤ_parts, ◌∙◌,
  Bool-cases, Option-cases, inl, inr, leb→le, leb,
}
use ros2_resilience.Python.Float.{Float, IsFloat, to_seconds}
use ros2_resilience.Python.Result.{ok}
use ros2_resilience.Python.Sorting.{sorted, any-sorted}
use ros2_resilience.Core.Events.{Event, recovery_published, command_observed, raw_odometry}
use ros2_resilience.Core.Metrics.{
  earliest, from_time, stopped_from, since, is_moving, in_hold, receipt_of, broken_from,
  stop_hold_broken_at_sec, recovery_command_latency_sec, command_observation_latency_sec,
  time_to_stop_sec, first_after, latency, stop, gap_exceeds,
}
use ros2_resilience.Core.Scenario.{ScenarioConfig, RecoveryExpectation, RobotExpectation}
use ros2_resilience.Core.Checks.{
  AssertionResult, Timeline, AssertionType, recovery_command_published, recovery_command_observed,
  robot_stopped, in_time,
}
use ros2_resilience.Core.Assertions.{
  check_recovery_command_published, check_recovery_command_observed, check_robot_stopped,
  published_after, observed_after, seconds?,
}

-- no gap between the times from `previous` to the deadline is too long
abbrev pub is_covered : ℤ → ℤ → ℕ → List ℕ → Bool
is_covered max_gap deadline previous [] = not (gap_exceeds max_gap previous deadline)
is_covered max_gap deadline previous (t ∷ ts) =
    not (gap_exceeds max_gap previous (pos t)) && is_covered max_gap deadline t ts

module _ {F : Type 0} where
  abbrev holds : (Event F → Bool) → Option (Event F) → Bool
  holds q none = false
  holds q (some e) = q e

  -- a test that an earlier event passes if a later one does
  abbrev IsEarlier : (Event F → Bool) → Type 0
  IsEarlier q = (a b : Event F) → a.receipt_ns ≤ b.receipt_ns → q b ≡ true → q a ≡ true

  holds-earlier :
      (q : Event F → Bool) (e m : Event F)
      → IsEarlier q
      → q (if leb e.receipt_ns m.receipt_ns then e else m) ≡ (q e || q m)
  holds-earlier q e m mono = elim (Bool-cases (leb e.receipt_ns m.receipt_ns)) [
    | inl le ↦ rw le (ground (arith, mono e m (leb→le _ _ le)))
    | inr gt ↦ rw gt (ground (arith, mono m e (ground arith)))
  ]

  -- it is passed by the earliest event if it is passed by any
  earliest-any :
      (q : Event F → Bool) → IsEarlier q → (es : List (Event F)) → holds q (earliest es) ≡ any q es
  unfolding earliest
  earliest-any q mono [] = refl
  earliest-any q mono (e ∷ es) =
      let rest = earliest-any q mono es in
      elim (Option-cases (earliest es)) [
        | inl empty ↦ rw empty (ground (arith, rest, empty))
        | inr (m, found) ↦ rw found (ground (arith, rest, found, holds-earlier q e m mono))
      ]

module _ {F : Type 0} ⦃f : Float F⦄ where
  -- within the limit, counted from a time
  abbrev pub within : ℤ → F → Event F → Bool
  within start limit e = f.le (since start e) limit

  in_time-holds :
      (t : AssertionType) (limit : F) (start : ℤ) (o : Option (Event F))
      → (in_time t limit (latency start o)).passed ≡ holds (within start limit) o
  unfolding in_time to_seconds
  in_time-holds t limit start none = refl
  in_time-holds t limit start (some e) = refl

  in_time-stop :
      (limit : F) (start : ℤ) (o : Option (Event F))
      → (in_time robot_stopped limit (seconds? (stop start o))).passed
        ≡ holds (within start limit) o
  unfolding in_time to_seconds
  in_time-stop limit start none = refl
  in_time-stop limit start (some e) = refl

  abbrev pub is_none : Option F → Bool
  is_none none = true
  is_none (some x) = false

  broken_from-is_none :
      (linear angular : F) (max_gap : ℤ) (stop_ns : ℕ) (deadline : ℤ) (previous : ℕ)
      (es : List (Event F))
      → is_none (broken_from linear angular max_gap stop_ns deadline previous es) ≡ (
          is_covered max_gap deadline previous (map receipt_of es)
          && not (any (is_moving linear angular) es))
  unfolding broken_from to_seconds
  broken_from-is_none linear angular max_gap stop_ns deadline previous [] = ground arith
  broken_from-is_none linear angular max_gap stop_ns deadline previous (e ∷ es) =
      ground (arith, broken_from-is_none linear angular max_gap stop_ns deadline e.receipt_ns es)

  -- The check of the hold finds no break exactly if no odometry sample of the hold moves, and no gap
  -- between samples that follow one another, from the stop to the deadline, exceeds three periods.
  pub hold_is_kept :
      (events : List (Event F)) (stop_ns : ℕ) (deadline : ℤ) (linear angular : F) (period : ℤ)
      → let samples : List (Event F) = filter (in_hold stop_ns deadline) events in
        is_none (stop_hold_broken_at_sec events stop_ns deadline linear angular period) ≡ (
          is_covered
            (period +ℤ period +ℤ period)
            deadline
            stop_ns
            (map receipt_of (sorted receipt_of samples))
          && not (any (is_moving linear angular) samples))
  unfolding stop_hold_broken_at_sec
  hold_is_kept events stop_ns deadline linear angular period =
      let samples = filter (in_hold stop_ns deadline) events in
      rw (← any-sorted receipt_of (is_moving linear angular) samples) (
        broken_from-is_none linear angular (period +ℤ period +ℤ period) stop_ns deadline stop_ns
          (sorted receipt_of samples))

module _ {F : Type 0} ⦃f : Float F⦄ (floats : IsFloat F) where
  within-IsEarlier : (start : ℤ) (limit : F) → IsEarlier (within start limit)
  unfolding to_seconds
  within-IsEarlier start limit a b h k =
      floats.le_trans (since start a) (since start b) limit
        (floats.seconds_mono (pos a.receipt_ns -ℤ start) (pos b.receipt_ns -ℤ start)
          (omega (int_laws, -ℤ_parts (pos a.receipt_ns) start, -ℤ_parts (pos b.receipt_ns) start)))
        k

  earliest-within :
      (start : ℤ) (limit : F) (p : Event F → Bool) (es : List (Event F))
      → holds (within start limit) (earliest (filter p es))
        ≡ any (λ e. p e && within start limit e) es
  earliest-within start limit p es =
      earliest-any (within start limit) (within-IsEarlier start limit) (filter p es)
      ∙ any-filter (within start limit) p es

  -- For a scenario that expects a recovery, the recovery command counts as published in time exactly
  -- if some recovery command, from the detection on, was received within the limit.
  pub published_in_time :
      (s : ScenarioConfig F) (events : List (Event F)) (detection : ℤ) (r : RecoveryExpectation F)
      → s.expect.recovery ≡ some r
      → (result : AssertionResult F) × (check_recovery_command_published s events (some detection)
          ≡ ok result)
        × (result.passed
            ≡ any
                (λ e.
                  from_time recovery_published detection e
                  && within detection r.command_within_sec e)
                events)
  unfolding check_recovery_command_published published_after recovery_command_latency_sec
      first_after
  published_in_time s events detection r expected =
      let commands = from_time recovery_published detection in
      rw expected (
        _,
        refl,
        in_time-holds recovery_command_published r.command_within_sec detection
              (earliest (filter commands events))
            ∙ earliest-within detection r.command_within_sec commands events,
      )

  -- For a scenario that expects a recovery and a stop, the recovery command counts as observed in
  -- time exactly if some command under both velocity thresholds, from the detection on, was received
  -- within the limit.
  pub observed_in_time :
      (s : ScenarioConfig F) (events : List (Event F)) (detection : ℤ) (r : RecoveryExpectation F)
      (robot : RobotExpectation F)
      → s.expect.recovery ≡ some r
      → s.expect.robot ≡ some robot
      → (result : AssertionResult F) × (check_recovery_command_observed s events (some detection)
          ≡ ok result)
        × (result.passed
            ≡ any
                (λ e.
                  stopped_from command_observed detection robot.linear_velocity_below_mps
                    robot.angular_velocity_below_rad_s e
                  && within detection r.observed_within_sec e)
                events)
  unfolding check_recovery_command_observed observed_after command_observation_latency_sec
  observed_in_time s events detection r robot expected moving =
      let stops =
        stopped_from command_observed detection robot.linear_velocity_below_mps
          robot.angular_velocity_below_rad_s in
      rw (expected, moving)
        (
          _,
          refl,
          in_time-holds recovery_command_observed r.observed_within_sec detection
                (earliest (filter stops events))
              ∙ earliest-within detection r.observed_within_sec stops events,
        )

  -- The robot counts as stopped in time exactly if some odometry sample under both velocity
  -- thresholds, from the activation on, was received within the limit.
  pub stopped_in_time :
      (robot : RobotExpectation F) (events : List (Event F)) (timeline : Timeline)
      → (check_robot_stopped robot events timeline).passed
        ≡ any
            (λ e.
              stopped_from raw_odometry timeline.activation_ns robot.linear_velocity_below_mps
                robot.angular_velocity_below_rad_s e
              && within timeline.activation_ns robot.within_sec e)
            events
  unfolding check_robot_stopped time_to_stop_sec
  stopped_in_time robot events timeline =
      let stops =
        stopped_from raw_odometry timeline.activation_ns robot.linear_velocity_below_mps
          robot.angular_velocity_below_rad_s in
      in_time-stop robot.within_sec timeline.activation_ns (earliest (filter stops events))
      ∙ earliest-within timeline.activation_ns robot.within_sec stops events
