-- ===== src/Faults/Latency/Fifo.antt =====
-- Without jitter, and as long as the delay is not lowered while messages are pending, the queue of
-- faults/latency.py is first in, first out.
use ros2_resilience.Prelude.{
  ℕ, ◌+◌, ◌≤◌, ◌<◌, ◌≡◌, refl, ap, ◌∙◌, Bool-cases, inl, inr, List, [], ◌∷◌, ◌++◌, map, arith, leb,
  length, filter, All, All-map, All-append, pos, map-append, ℤ,
}
use ros2_resilience.Python.Float.{Float}
use ros2_resilience.Python.Result.{ok}
use ros2_resilience.Python.Sorting.{
  sorted, sorted_of_IsAscending, append-IsAscending, filter-IsAscending,
}
use ros2_resilience.Python.Value.{Value, integer}
use ros2_resilience.Faults.Clock.{IsReached}
use ros2_resilience.Faults.Latency.{Entry, LatencyQueue, push, sample_delay, enqueue, pop_ready}
use ros2_resilience.Faults.Latency.Heap.{ByDeadline, is_due, is_waiting, none_due}
use ros2_resilience.Faults.Latency.Valid.{IsValid, push-IsValid}
use ros2_resilience.Faults.Latency.Arrivals.{
  pending, message_of, deadline_of, push-pending, enqueue-push, pop_ready-pending,
}

module _ {T : Type 0} where
  -- Deadlines ascend in the order of arrival, and none is later than one given at the time `t`.
  pub record IsFifo (t : ℕ) (q : LatencyQueue T) : Type 0 where
    pub valid : IsValid q
    pub no_jitter : q.jitter_ns ≡ 0
    pub ascending : ByDeadline (pending q)
    pub bounded : All (λ e. e.deadline ≤ t + q.delay_ns) (pending q)

  due-append-waiting :
      (now : ℕ) (xs : List (Entry T))
      → ByDeadline xs
      → filter (is_due now) xs ++ filter (is_waiting now) xs ≡ xs
  unfolding filter
  due-append-waiting now [] h = refl
  due-append-waiting now (x ∷ xs) h = elim (Bool-cases (leb x.deadline now)) [
    | inl due ↦ rw due (ap (◌∷◌ x) (due-append-waiting now xs h.1))
    | inr later ↦
        let (none_left, all_left) = none_due now xs (All-map (λ y k. ground arith) xs h.0) in
        rw (later, none_left, all_left)
  ]

  -- Of a queue without jitter whose pending deadlines ascend in the order of arrival, none of them
  -- later than the delay in force after the time `t`, `pop_ready` at a time that is not before the
  -- last one delivers a first part of what is pending, in the order of arrival: the messages that are
  -- due. It leaves the rest pending.
  pub pop_ready-prefix :
      (F : Type 0) (t : ℕ) (q : LatencyQueue T)
      → IsFifo t q
      → (now : ℕ) → IsReached q.last_time_ns now
      → (out : List T) × (q' : LatencyQueue T) × (pop_ready {F = F} q (integer (pos now))
          ≡ ok (out, q'))
        × (out ++ map message_of (pending q') ≡ map message_of (pending q))
        × (map message_of (filter (is_due now) (pending q)) ≡ out)
  pop_ready-prefix F t q h now reached =
      let due : List (Entry T) = filter (is_due now) (pending q) in
      let (q', popped, left) = pop_ready-pending q h.valid F now reached in
      let in_order : sorted deadline_of due ≡ due =
        sorted_of_IsAscending deadline_of due
          (filter-IsAscending deadline_of (is_due now) (pending q) h.ascending) in
      (
        map message_of due,
        q',
        rw (popped, in_order),
        rw (left, ← map-append, due-append-waiting now (pending q) h.ascending),
        refl,
      )

  push-IsFifo :
      (t : ℕ) (q : LatencyQueue T)
      → IsFifo t q
      → (m : T) (now : ℕ) → t ≤ now
      → length q.entries < q.max_pending
      → IsFifo now (push q m now q.delay_ns)
  unfolding push
  push-IsFifo t q h m now later room =
      let p : List (Entry T) = pending q in
      let same = push-pending q h.valid m now q.delay_ns in
      record {
        valid = push-IsValid q m now q.delay_ns h.valid room;
        no_jitter = h.no_jitter;
        ascending = rw same (
            append-IsAscending deadline_of p _ h.ascending
              (All-map (λ e k. omega arith) p h.bounded));
        bounded =
            rw same (All-append _ p _ (All-map (λ e k. omega arith) p h.bounded) (omega arith, tt));
      }

module _ {F R T : Type 0} ⦃f : Float F⦄ (uniform : ℤ → ℤ → R → Value F × R) where
  undelayed :
      (q : LatencyQueue T) (r : R) → q.jitter_ns ≡ 0 → sample_delay uniform q r ≡ (ok q.delay_ns, r)
  unfolding sample_delay
  undelayed q r h = rw h

  -- Of a queue without jitter and with room, whose pending deadlines ascend in the order of arrival
  -- and are none of them later than the delay in force after the time `t`: `enqueue` of a message that
  -- can be copied, at a time `now` that is neither before `t` nor before the last one, does not raise
  -- and does not touch the generator; the deadlines then ascend as before, and none is later than the
  -- delay in force after `now`.
  pub enqueue-IsFifo :
      (t : ℕ) (q : LatencyQueue T)
      → IsFifo t q
      → (m : T) (now : ℕ) (r : R) → t ≤ now
      → IsReached q.last_time_ns now
      → length q.entries < q.max_pending
      → (q' : LatencyQueue T) × (enqueue uniform q (ok m) (integer (pos now)) r ≡ (ok q', r))
        × IsFifo now q'
  enqueue-IsFifo t q h m now r later reached room =
      let drawn = undelayed q r h.no_jitter in
      (
        push q m now q.delay_ns,
        enqueue-push q h.valid uniform m now r reached room (ap (λ p. p.0) drawn)
            ∙ ap (λ p. (ok (push q m now q.delay_ns), p.1)) drawn,
        push-IsFifo t q h m now later room,
      )
