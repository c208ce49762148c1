-- ===== src/Faults/Latency/Arrivals.antt =====
-- The queue of faults/latency.py against an ideal one: the list of what is pending in the order of
-- arrival, which knows neither a heap nor sequence numbers.
use ros2_resilience.Prelude.{
  ℕ, ◌+◌, ◌≤◌, ◌<◌, ◌≡◌, refl, ap, ◌∙◌, inl, inr, List, [], ◌∷◌, ◌++◌, map, arith, leb, Bool-cases,
  length, filter, All, All-map, ℤ, pos, some, le→leb, lt→not_leb,
}
use ros2_resilience.Python.Float.{Float}
use ros2_resilience.Python.Result.{ok, raise, queue_overflow}
use ros2_resilience.Python.Value.{Value, integer}
use ros2_resilience.Python.Sorting.{
  sorted, insert, insert_first, insert_last, insert-append, All-insert, filter-sorted, All-sorted,
}
use ros2_resilience.Faults.Clock.{IsReached, validate_time-reached}
use ros2_resilience.Faults.Latency.{
  Entry, LatencyQueue, heappush, tuple_lt, push, pop_due, pop_ready, sample_delay, enqueue_at,
  enqueue, enqueue_copied,
}
use ros2_resilience.Faults.Latency.Heap.{
  IsHeap, Before, Before-le, is_due, is_waiting, IsHeap-ByDeadline, pop_due-filter, filter-IsHeap,
}
use ros2_resilience.Faults.Latency.Valid.{IsValid}

module _ {T : Type 0} where
  abbrev pub deadline_of : Entry T → ℕ
  deadline_of e = e.deadline

  abbrev pub sequence_of : Entry T → ℕ
  sequence_of e = e.sequence

  abbrev pub message_of : Entry T → T
  message_of e = e.message

  -- what is pending, in the order of arrival
  unfoldable pub pending : LatencyQueue T → List (Entry T)
  pending q = sorted sequence_of q.entries

  sorted-heappush :
      (e : Entry T) (xs : List (Entry T))
      → All (λ x. x.sequence < e.sequence) xs
      → sorted sequence_of (heappush e xs) ≡ sorted sequence_of xs ++ (e ∷ [])
  unfolding heappush sorted
  sorted-heappush e [] n = refl
  sorted-heappush e (x ∷ xs) n = elim (Bool-cases (tuple_lt e x)) [
    | inl lt ↦ rw lt (
        insert_last sequence_of e _
          (All-sorted sequence_of (λ y. y.sequence < e.sequence) (x ∷ xs) n))
    | inr ge ↦
        rw (ge, sorted-heappush e xs n.1)
          (insert-append sequence_of x e (sorted sequence_of xs) n.0)
  ]

  -- A stable sort by deadline undoes a sort by arrival on entries that were in heap order.
  sorted-insert :
      (x : Entry T) (ys : List (Entry T))
      → All (Before x) ys
      → sorted deadline_of (insert sequence_of x ys) ≡ x ∷ sorted deadline_of ys
  unfolding sorted insert
  sorted-insert x [] h = refl
  sorted-insert x (y ∷ ys) h = elim (Bool-cases (leb x.sequence y.sequence)) [
    | inl le ↦
        let P : Entry T → Type 0 = λ z. x.deadline ≤ z.deadline in
        let later : All P (y ∷ ys) = All-map (λ z b. Before-le x z b) (y ∷ ys) h in
        rw le (
          insert_first deadline_of x (insert deadline_of y (sorted deadline_of ys))
            (All-insert deadline_of P y _ later.0 (All-sorted deadline_of P ys later.1)))
    | inr gt ↦ rw (gt, sorted-insert x ys h.1) (ground arith)
  ]

  sorted-sorted :
      (xs : List (Entry T)) → IsHeap xs → sorted deadline_of (sorted sequence_of xs) ≡ xs
  unfolding sorted
  sorted-sorted [] h = refl
  sorted-sorted (x ∷ xs) h =
      sorted-insert x (sorted sequence_of xs) (All-sorted sequence_of (Before x) xs h.0)
      ∙ ap (λ l. x ∷ l) (sorted-sorted xs h.1)

module _ {T : Type 0} (q : LatencyQueue T) (v : IsValid q) where
  -- `push` puts the message behind all that are pending
  pub push-pending :
      (m : T) (now delay : ℕ)
      → pending (push q m now delay)
        ≡ pending q
          ++ (record { deadline = now + delay; sequence = q.next_sequence; message = m } ∷ [])
  unfolding pending push
  push-pending m now delay = sorted-heappush _ q.entries v.numbered

  -- the loop of `pop_ready` takes what is due, by deadline and then by arrival
  pop_due-pending :
      (now : ℕ)
      → (pop_due now q.entries).0
        ≡ map message_of (sorted deadline_of (filter (is_due now) (pending q)))
  unfolding pending
  pop_due-pending now = rw (
    pop_due-filter now q.entries (IsHeap-ByDeadline q.entries v.ordered),
    filter-sorted sequence_of (is_due now) q.entries,
    sorted-sorted (filter (is_due now) q.entries) (filter-IsHeap (is_due now) q.entries v.ordered),
  )

  left-pending :
      (now : ℕ) → sorted sequence_of (pop_due now q.entries).1 ≡ filter (is_waiting now) (pending q)
  unfolding pending
  left-pending now = rw (
    pop_due-filter now q.entries (IsHeap-ByDeadline q.entries v.ordered),
    filter-sorted sequence_of (is_waiting now) q.entries,
  )

  -- A valid queue is a list of what is pending in the order of arrival. At a time that is not before
  -- the last one, `pop_ready` does not raise: it returns the pending messages whose deadlines are at
  -- or before `now`, in the order of their deadlines and, for equal deadlines, of arrival; what
  -- stays pending is the rest, in the order of arrival.
  pub pop_ready-pending :
      (F : Type 0) (now : ℕ)
      → IsReached q.last_time_ns now
      → (q' : LatencyQueue T) × (pop_ready {F = F} q (integer (pos now))
          ≡ ok (map message_of (sorted deadline_of (filter (is_due now) (pending q))), q'))
        × (pending q' ≡ filter (is_waiting now) (pending q))
  unfolding pop_ready pending
  pop_ready-pending F now h = (
    record q { entries = (pop_due now q.entries).1; last_time_ns = some now },
    rw (validate_time-reached F q.last_time_ns now h, pop_due-pending now),
    left-pending now,
  )

  module _ {F R : Type 0} ⦃f : Float F⦄ (uniform : ℤ → ℤ → R → Value F × R) where
    pub enqueue-push :
        (m : T) (now : ℕ) (r : R)
        → IsReached q.last_time_ns now
        → length q.entries < q.max_pending
        → {delay : ℕ} → (sample_delay uniform q r).0 ≡ ok delay
        → enqueue uniform q (ok m) (integer (pos now)) r
          ≡ (ok (push q m now delay), (sample_delay uniform q r).1)
    unfolding enqueue enqueue_at enqueue_copied
    enqueue-push m now r h room d =
        rw (validate_time-reached F q.last_time_ns now h, lt→not_leb _ _ room, d)

    -- A full queue, at a time that is not before the last one, raises `QueueOverflowError`; nothing
    -- changes, and no random sample is drawn.
    pub enqueue_full :
        (m : T) (now : ℕ) (r : R)
        → IsReached q.last_time_ns now
        → q.max_pending ≤ length q.entries
        → enqueue uniform q (ok m) (integer (pos now)) r ≡ (raise queue_overflow, r)
    unfolding enqueue enqueue_at enqueue_copied
    enqueue_full m now r h full = rw (validate_time-reached F q.last_time_ns now h, le→leb _ _ full)
