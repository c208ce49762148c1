-- ===== src/Faults/Latency/Valid.antt =====
-- The invariant of the queue of faults/latency.py: every method keeps it.
use ros2_resilience.Prelude.{
  ℕ, suc, ◌+◌, ◌≤◌, ◌<◌, ◌≡◌, ◌≢◌, lt→not_leb, List, arith, leb, Bool-cases, not_leb→lt, inl, inr,
  length, length-map, All, All-map, ℤ, pos, some,
}
use ros2_resilience.Python.Float.{Float}
use ros2_resilience.Python.Result.{Result, Error, ok, raise, Ensures, Ensures-bind, bind_returned}
use ros2_resilience.Python.Sorting.{sorted, length-sorted}
use ros2_resilience.Python.Value.{Value, integer, validate_nonnegative_int, validate_positive_int}
use ros2_resilience.Faults.Clock
use ros2_resilience.Faults.Clock.{IsReached, validate_time-reached}
use ros2_resilience.Faults.Latency.{
  Entry, LatencyQueue, push, pop_due, init, configure, pop_ready, flush, sample_delay, enqueue_at,
  enqueue, enqueue_copied,
}
use ros2_resilience.Faults.Latency.Heap.{
  IsHeap, heappush-IsHeap, length-heappush, All-heappush, All-pop_due, length-pop_due,
  pop_due-IsHeap,
}

module _ {T : Type 0} where
  pub record IsValid (q : LatencyQueue T) : Type 0 where
    pub ordered : IsHeap q.entries
    pub numbered : All (λ e. e.sequence < q.next_sequence) q.entries
    pub fits : length q.entries ≤ q.max_pending

  pub push-IsValid :
      (q : LatencyQueue T) (m : T) (now delay : ℕ)
      → IsValid q
      → length q.entries < q.max_pending
      → IsValid (push q m now delay)
  unfolding push
  push-IsValid q m now delay v room =
      let e : Entry T = record {
        deadline = now + delay;
        sequence = q.next_sequence;
        message = m;
      } in
      record {
        ordered = heappush-IsHeap e q.entries v.numbered v.ordered;
        numbered =
            All-heappush (λ x. x.sequence < suc q.next_sequence) e q.entries (omega arith)
              (All-map (λ x h. omega arith) q.entries v.numbered);
        fits = omega (arith, length-heappush e q.entries);
      }

  pub flush-IsValid : (q : LatencyQueue T) → IsValid q → IsValid (flush q).1
  unfolding flush
  flush-IsValid q v = record { ordered = tt; numbered = tt; fits = omega arith }

  pub popped-IsValid :
      (q : LatencyQueue T) (now : ℕ)
      → IsValid q
      → IsValid (record q { entries = (pop_due now q.entries).1; last_time_ns = some now })
  popped-IsValid q now v = record {
    ordered = pop_due-IsHeap now q.entries v.ordered;
    numbered = All-pop_due (λ e. e.sequence < q.next_sequence) now q.entries v.numbered;
    fits =
        let n : ℕ = length (pop_due now q.entries).0 in
        omega (arith, v.fits, length-pop_due now q.entries);
  }

module _ {T F : Type 0} where
  pub configure-IsValid :
      (q : LatencyQueue T) (d j : Value F) → IsValid q → Ensures IsValid (configure q d j)
  unfolding configure
  configure-IsValid q d j v = Ensures-bind IsValid (validate_nonnegative_int d) _ λ delay _.
      Ensures-bind IsValid (validate_nonnegative_int j) _
        λ jitter _. record { ordered = v.ordered; numbered = v.numbered; fits = v.fits }

  pub pop_ready-IsValid :
      (q : LatencyQueue T) (now_ns : Value F)
      → IsValid q
      → Ensures (λ p. IsValid p.1) (pop_ready q now_ns)
  unfolding pop_ready
  pop_ready-IsValid q now_ns v =
      Ensures-bind (λ p. IsValid p.1) (Clock.validate_time q.last_time_ns now_ns) _
        λ now _. popped-IsValid q now v

module _ {F T R : Type 0} ⦃f : Float F⦄ (uniform : ℤ → ℤ → R → Value F × R) where
  enqueue_copied-IsValid :
      (q : LatencyQueue T) (m : Result T) (now : ℕ) (r : R)
      → IsValid q
      → length q.entries < q.max_pending
      → Ensures IsValid (enqueue_copied uniform q m now r).0
  unfolding enqueue_copied
  enqueue_copied-IsValid q (raise e) now r v room = tt
  enqueue_copied-IsValid q (ok m) now r v room =
      Ensures-bind IsValid (sample_delay uniform q r).0 _
        λ delay _. push-IsValid q m now delay v room

  enqueue_at-IsValid :
      (q : LatencyQueue T) (m : Result T) (time : Result ℕ) (r : R)
      → IsValid q
      → Ensures IsValid (enqueue_at uniform q m time r).0
  unfolding enqueue_at
  enqueue_at-IsValid q m (raise e) r v = tt
  enqueue_at-IsValid q m (ok now) r v = elim (Bool-cases (leb q.max_pending (length q.entries))) [
    | inl full ↦ rw full tt
    | inr room ↦ rw room (enqueue_copied-IsValid q m now r v (not_leb→lt _ _ room))
  ]

  pub enqueue-IsValid :
      (q : LatencyQueue T) (m : Result T) (now_ns : Value F) (r : R)
      → IsValid q
      → Ensures IsValid (enqueue uniform q m now_ns r).0
  unfolding enqueue
  enqueue-IsValid q m now_ns r v =
      enqueue_at-IsValid q m (Clock.validate_time q.last_time_ns now_ns) r v

pub init-IsValid :
    (T : Type 0) {F : Type 0} (d j m : Value F) → Ensures (IsValid {T = T}) (init d j m)
unfolding init
init-IsValid T d j m = Ensures-bind IsValid (validate_nonnegative_int d) _ λ delay _.
    Ensures-bind IsValid (validate_nonnegative_int j) _ λ jitter _.
      Ensures-bind IsValid (validate_positive_int m) _
        λ capacity _. record { ordered = tt; numbered = tt; fits = omega arith }

-- What a call that returned has done.
module _ {F T R : Type 0} ⦃f : Float F⦄ (uniform : ℤ → ℤ → R → Value F × R) where
  enqueue_at-ok :
      (q : LatencyQueue T) (m : T) (now : ℕ) (r : R) {q' : LatencyQueue T}
      → (enqueue_at uniform q (ok m) (ok now) r).0 ≡ ok q'
      → (delay : ℕ) × (q' ≡ push q m now delay) × (length q.entries < q.max_pending)
  unfolding enqueue_at enqueue_copied
  enqueue_at-ok q m now r h = elim (Bool-cases (leb q.max_pending (length q.entries))) [
    | inl full ↦ absurd (ground arith)
    | inr room ↦
        let (delay, same, sampled) =
          bind_returned (λ d. ok (push q m now d)) (sample_delay uniform q r).0 (rw room at h) in
        (delay, ground arith, not_leb→lt _ _ room)
  ]

  -- A message whose copy raises is not queued.
  pub enqueue_uncopied :
      (q : LatencyQueue T) (e : Error) (now : ℕ) (r : R)
      → IsReached q.last_time_ns now
      → length q.entries < q.max_pending
      → enqueue uniform q (raise e) (integer (pos now)) r ≡ (raise e, r)
  unfolding enqueue enqueue_at enqueue_copied
  enqueue_uncopied q e now r h room =
      rw (validate_time-reached F q.last_time_ns now h, lt→not_leb _ _ room)

  pub enqueue_uncopied-fails :
      (q : LatencyQueue T) (e : Error) (now : ℕ) (r : R) {q' : LatencyQueue T}
      → IsReached q.last_time_ns now
      → (enqueue uniform q (raise e) (integer (pos now)) r).0 ≢ ok q'
  unfolding enqueue enqueue_at enqueue_copied
  enqueue_uncopied-fails q e now r reached h =
      let h' = rw (validate_time-reached F q.last_time_ns now reached) at h in
      elim (Bool-cases (leb q.max_pending (length q.entries))) [
        | inl full ↦ absurd (ground arith)
        | inr room ↦ absurd (ground arith)
      ]

  pub enqueue-ok :
      (q : LatencyQueue T) (m : T) (now : ℕ) (r : R) {q' : LatencyQueue T}
      → IsReached q.last_time_ns now
      → (enqueue uniform q (ok m) (integer (pos now)) r).0 ≡ ok q'
      → (delay : ℕ) × (q' ≡ push q m now delay) × (length q.entries < q.max_pending)
  unfolding enqueue
  enqueue-ok q m now r reached h =
      enqueue_at-ok q m now r (rw (validate_time-reached F q.last_time_ns now reached) at h)

pub pop_ready-reached :
    (F : Type 0) {T : Type 0} (q : LatencyQueue T) (now : ℕ)
    → IsReached q.last_time_ns now
    → pop_ready {F = F} q (integer (pos now))
      ≡ ok (
        (pop_due now q.entries).0,
        record q { entries = (pop_due now q.entries).1; last_time_ns = some now },
      )
unfolding pop_ready
pop_ready-reached F q now h = rw (validate_time-reached F q.last_time_ns now h)

pub length-flush : {T : Type 0} (q : LatencyQueue T) → length (flush q).0 ≡ length q.entries
unfolding flush
length-flush {T} q =
    let arrivals : List (Entry T) = sorted (λ e. e.sequence) q.entries in
    omega (arith, length-map (λ e. e.message) arrivals, length-sorted (λ e. e.sequence) q.entries)
