-- ===== src/Faults/Latency/Delays.antt =====
-- The deadlines that the queue of faults/latency.py gives, with a generator that keeps what Python
-- documents of `uniform`.
use ros2_resilience.Prelude.{
  ℕ, ◌+◌, ◌≤◌, ◌<◌, ◌≡◌, refl, true, [], ◌∷◌, ◌++◌, arith, ◌==◌, Bool-cases, inl, inr, length, ℤ,
  pos, sub_ℕ, pos_part, ◌+ℤ◌, ◌≤ℤ◌,
}
use ros2_resilience.Python.Float.{Float, IsFloat}
use ros2_resilience.Python.Result.{ok}
use ros2_resilience.Python.Value.{integer, floating}
use ros2_resilience.Faults.Clock.{IsReached}
use ros2_resilience.Faults.Random.{Random, IsRandom}
use ros2_resilience.Faults.Latency.{
  Entry, LatencyQueue, push, delay_of_sample, sample_delay, enqueue,
}
use ros2_resilience.Faults.Latency.Valid.{IsValid}
use ros2_resilience.Faults.Latency.Arrivals.{pending, push-pending, enqueue-push}

shifted_bounds :
    (delay jitter : ℕ) (z : ℤ)
    → sub_ℕ 0 jitter ≤ℤ z
    → z ≤ℤ pos jitter
    → (delay ≤ pos_part (pos delay +ℤ z) + jitter) × (pos_part (pos delay +ℤ z) ≤ delay + jitter)
unfolding ◌+ℤ◌
shifted_bounds delay jitter z lo hi = ground arith

module _ {F : Type 0} ⦃f : Float F⦄ (floats : IsFloat F) where
  delay_of_float :
      (delay jitter : ℕ) (x : F)
      → f.is_finite x ≡ true
      → f.int_le (sub_ℕ 0 jitter) x ≡ true
      → f.le_int x (pos jitter) ≡ true
      → (d : ℕ) × (delay_of_sample delay jitter (floating x) ≡ ok d)
        × (delay ≤ d + jitter)
        × (d ≤ delay + jitter)
  unfolding delay_of_sample
  delay_of_float delay jitter x finite lo hi =
      let (z, rounds, above, below) = floats.round_between (sub_ℕ 0 jitter) (pos jitter) x lo hi in
      let (near, far) = shifted_bounds delay jitter z above below in
      (pos_part (pos delay +ℤ z), rw (finite, lo, hi, rounds), near, far)

module _ {F R T : Type 0} ⦃f : Float F⦄ ⦃g : Random F R⦄ (floats : IsFloat F)
    (fair : IsRandom F R) where
  -- the sampled delay is within the jitter of the configured one, and sampling does not raise
  pub sample_delay_bounds :
      (q : LatencyQueue T) (r : R)
      → (d : ℕ) × ((sample_delay g.uniform q r).0 ≡ ok d)
        × (q.delay_ns ≤ d + q.jitter_ns)
        × (d ≤ q.delay_ns + q.jitter_ns)
  unfolding sample_delay
  sample_delay_bounds q r = elim (Bool-cases (q.jitter_ns == 0)) [
    | inl none_set ↦ (q.delay_ns, rw none_set, omega arith, omega arith)
    | inr some_set ↦
        let (x, sample, finite, lo, hi) =
          fair.uniform_range (sub_ℕ 0 q.jitter_ns) (pos q.jitter_ns) r (ground arith) in
        let (d, delay, near, far) = delay_of_float floats q.delay_ns q.jitter_ns x finite lo hi in
        (d, rw (some_set, sample, delay), near, far)
  ]

  -- With a generator that keeps to Python's documentation, `enqueue` on a valid queue with room, at a
  -- time that is not before the last one, takes a message that can be copied without raising: the message goes behind all that are
  -- pending, and its deadline is within `jitter_ns` of `now + delay_ns`, and not before `now`.
  pub enqueue-pending :
      (q : LatencyQueue T)
      → IsValid q
      → (m : T) (now : ℕ) (r : R) → IsReached q.last_time_ns now
      → length q.entries < q.max_pending
      → (q' : LatencyQueue T) × (e : Entry T) × ((enqueue g.uniform q
            (ok m)
            (integer (pos now))
            r).0
          ≡ ok q')
        × (pending q' ≡ pending q ++ (e ∷ []))
        × (e.message ≡ m)
        × (now + q.delay_ns ≤ e.deadline + q.jitter_ns)
        × (e.deadline ≤ now + q.delay_ns + q.jitter_ns)
        × (now ≤ e.deadline)
  enqueue-pending q v m now r h room =
      let (d, sampled, near, far) = sample_delay_bounds q r in
      (
        push q m now d,
        record { deadline = now + d; sequence = q.next_sequence; message = m },
        rw (enqueue-push q v g.uniform m now r h room sampled),
        push-pending q v m now d,
        refl,
        omega arith,
        omega arith,
        omega arith,
      )
