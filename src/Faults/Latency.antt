-- ===== src/Faults/Latency.antt =====
-- ros2_resilience/faults/latency.py: hold messages until a deadline. The list of entries is kept in
-- the order of the tuples `(deadline, sequence, message)`; a sorted list is a heap, and the code
-- reads the smallest entry, the length, and all entries sorted by their sequence only. The code
-- reads a message through `deepcopy` only, so what `deepcopy` makes of it, a value or an exception,
-- stands for the message.
pub mod Heap
pub mod Valid
pub mod Arrivals
pub mod Delays
pub mod Fifo
pub mod Calls
use ros2_resilience.Prelude.{
  ℕ, suc, ◌+◌, Bool, ◌&&◌, ◌||◌, Option, none, some, List, [], ◌∷◌, map, leb, ltb, ◌==◌,
  if◌then◌else◌, length, ℤ, pos, sub_ℕ, pos_part, leb_ℤ, ◌+ℤ◌,
}
use ros2_resilience.Python.Float.{Float}
use ros2_resilience.Python.Result.{
  Result, ok, raise, type_error, value_error, queue_overflow, ◌>>=◌,
}
use ros2_resilience.Python.Sorting.{sorted}
use ros2_resilience.Python.Value.{
  Value, integer, floating, validate_nonnegative_int, validate_positive_int,
}
use ros2_resilience.Faults.Clock

pub record Entry (T : Type 0) : Type 0 where
  pub deadline : ℕ
  pub sequence : ℕ
  pub message : T

pub record LatencyQueue (T : Type 0) : Type 0 where
  pub delay_ns : ℕ
  pub jitter_ns : ℕ
  pub max_pending : ℕ
  pub entries : List (Entry T)
  pub last_time_ns : Option ℕ
  pub next_sequence : ℕ

module _ {T : Type 0} where
  -- the order of the tuples; no two entries have one sequence number
  unfoldable pub tuple_lt : Entry T → Entry T → Bool
  tuple_lt a b =
      ltb a.deadline b.deadline || (a.deadline == b.deadline && ltb a.sequence b.sequence)

  -- `heapq.heappush`
  unfoldable pub heappush : Entry T → List (Entry T) → List (Entry T)
  unfolding tuple_lt
  heappush e [] = e ∷ []
  heappush e (x ∷ xs) = let rest = heappush e xs in if tuple_lt e x then e ∷ x ∷ xs else x ∷ rest

  abbrev pub pending_count : LatencyQueue T → ℕ
  pending_count q = length q.entries

  -- the loop of `pop_ready`: the messages that are due, and the entries that stay
  unfoldable pub pop_due : ℕ → List (Entry T) → List T × List (Entry T)
  pop_due now [] = ([], [])
  pop_due now (e ∷ es) =
      let rest = pop_due now es in
      if leb e.deadline now then (e.message ∷ rest.0, rest.1) else ([], e ∷ es)

  -- `flush`: the messages in the order of arrival, and the emptied queue
  unfoldable pub flush : LatencyQueue T → List T × LatencyQueue T
  unfolding sorted
  flush q = (map (λ e. e.message) (sorted (λ e. e.sequence) q.entries), record q { entries = [] })

module _ {T F : Type 0} where
  -- `LatencyQueue.__init__`
  unfoldable pub init : Value F → Value F → Value F → Result (LatencyQueue T)
  unfolding validate_nonnegative_int validate_positive_int
  init delay_ns jitter_ns max_pending = do
    delay ← validate_nonnegative_int delay_ns
    jitter ← validate_nonnegative_int jitter_ns
    capacity ← validate_positive_int max_pending
    ok (record {
      delay_ns = delay;
      jitter_ns = jitter;
      max_pending = capacity;
      entries = [];
      last_time_ns = none;
      next_sequence = 0;
    })

  unfoldable pub configure : LatencyQueue T → Value F → Value F → Result (LatencyQueue T)
  unfolding validate_nonnegative_int
  configure q delay_ns jitter_ns = do
    delay ← validate_nonnegative_int delay_ns
    jitter ← validate_nonnegative_int jitter_ns
    ok (record q { delay_ns = delay; jitter_ns = jitter })

  unfoldable pub pop_ready : LatencyQueue T → Value F → Result (List T × LatencyQueue T)
  unfolding Clock.validate_time pop_due
  pop_ready q now_ns = do
    now ← Clock.validate_time q.last_time_ns now_ns
    let due = pop_due now q.entries
    ok (due.0, record q { entries = due.1; last_time_ns = some now })

-- `max(0, delay + z)`
abbrev shifted : ℕ → ℤ → ℕ
shifted delay z = pos_part (pos delay +ℤ z)

module _ {T : Type 0} where
  -- the last lines of `enqueue`, once the delay is known
  unfoldable pub push : LatencyQueue T → T → ℕ → ℕ → LatencyQueue T
  unfolding heappush
  push q snapshot now delay =
      let new : Entry T = record {
        deadline = now + delay;
        sequence = q.next_sequence;
        message = snapshot;
      } in
      record q {
        entries = heappush new q.entries;
        next_sequence = suc q.next_sequence;
        last_time_ns = some now;
      }

module _ {F : Type 0} ⦃f : Float F⦄ where
  -- the checks of `_sample_delay` on what `uniform` returned, and the delay
  unfoldable pub delay_of_sample : ℕ → ℕ → Value F → Result ℕ
  unfolding ◌+ℤ◌
  delay_of_sample delay jitter (integer z) =
      if leb_ℤ (sub_ℕ 0 jitter) z && leb_ℤ z (pos jitter)
      then ok (shifted delay z)
      else raise value_error
  delay_of_sample delay jitter (floating x) =
      if f.is_finite x && (f.int_le (sub_ℕ 0 jitter) x && f.le_int x (pos jitter))
      then (f.round x >>= λ z. ok (shifted delay z))
      else raise value_error
  delay_of_sample delay jitter _ = raise type_error

  module _ {T R : Type 0} (uniform : ℤ → ℤ → R → Value F × R) where
    -- the delay, and the state of the generator, which comes back beside an exception too
    unfoldable pub sample_delay : LatencyQueue T → R → Result ℕ × R
    sample_delay q r =
        if q.jitter_ns == 0
        then (ok q.delay_ns, r)
        else (let (sample, r') = uniform (sub_ℕ 0 q.jitter_ns) (pos q.jitter_ns) r in
            (delay_of_sample q.delay_ns q.jitter_ns sample, r'))

    -- `enqueue` once the message is copied
    unfoldable pub enqueue_copied : LatencyQueue T → Result T → ℕ → R → Result (LatencyQueue T) × R
    unfolding sample_delay
    enqueue_copied q (raise e) now r = (raise e, r)
    enqueue_copied q (ok snapshot) now r =
        let (delay, r') = sample_delay q r in ((delay >>= λ d. ok (push q snapshot now d)), r')

    -- `enqueue` after the check of the time
    unfoldable pub enqueue_at :
        LatencyQueue T → Result T → Result ℕ → R → Result (LatencyQueue T) × R
    unfolding enqueue_copied
    enqueue_at q message (raise e) r = (raise e, r)
    enqueue_at q message (ok now) r =
        if leb q.max_pending (length q.entries)
        then (raise queue_overflow, r)
        else enqueue_copied q message now r

    unfoldable pub enqueue : LatencyQueue T → Result T → Value F → R → Result (LatencyQueue T) × R
    unfolding enqueue_at Clock.validate_time
    enqueue q message now_ns r = enqueue_at q message (Clock.validate_time q.last_time_ns now_ns) r
