-- ===== src/Tests/Queue.antt =====
-- A queue with jitter and two pending messages, and one without: faults/latency.py.
use ros2_resilience.Prelude.{
  ℕ, pos, ◌+◌, ◌≤◌, ◌≡◌, refl, inl, arith, List, [], ◌∷◌, ◌++◌, map, filter, some,
}
use ros2_resilience.Python.Result.{ok}
use ros2_resilience.Python.Sorting.{sorted, insert}
use ros2_resilience.Python.Value.{integer}
use ros2_resilience.Faults.Random.{Random}
use ros2_resilience.Faults.Latency
use ros2_resilience.Faults.Latency.{Entry, LatencyQueue}
use ros2_resilience.Faults.Latency.Heap.{is_due, is_waiting}
use ros2_resilience.Faults.Latency.Valid.{IsValid}
use ros2_resilience.Faults.Latency.Arrivals.{message_of, deadline_of, pending, pop_ready-pending}
use ros2_resilience.Faults.Latency.Delays.{enqueue-pending}
use ros2_resilience.Faults.Latency.Fifo.{IsFifo, pop_ready-prefix, enqueue-IsFifo}
use ros2_resilience.Tests.Numbers.{Fixed, Fixed-Float, Fixed-IsFloat, ℕ-Random, ℕ-IsRandom}

abbrev entry : ℕ → ℕ → ℕ → Entry ℕ
entry t n m = record { deadline = t; sequence = n; message = m }

-- The message 20 arrived first and is due last.
abbrev pub queue : LatencyQueue ℕ
queue = record {
  delay_ns = 5;
  jitter_ns = 2;
  max_pending = 3;
  entries = entry 7 1 10 ∷ entry 8 0 20 ∷ [];
  last_time_ns = some 3;
  next_sequence = 2;
}

abbrev steady : LatencyQueue ℕ
steady = record queue { jitter_ns = 0; entries = entry 7 0 10 ∷ entry 8 1 20 ∷ [] }

pub queue-IsValid : IsValid queue
queue-IsValid = record {
  ordered = ((inl (omega arith), tt), (tt, tt));
  numbered = (omega arith, (omega arith, tt));
  fits = omega arith;
}

steady-IsValid : IsValid steady
steady-IsValid = record {
  ordered = ((inl (omega arith), tt), (tt, tt));
  numbered = (omega arith, (omega arith, tt));
  fits = omega arith;
}

steady-IsFifo : IsFifo 3 steady
unfolding pending sorted insert
steady-IsFifo = record {
  valid = steady-IsValid;
  no_jitter = refl;
  ascending = ((omega arith, tt), (tt, tt));
  bounded = (omega arith, (omega arith, tt));
}

-- What is due at 7 is the message that arrived second.
pop_ready-pending_example :
    (q' : LatencyQueue ℕ) × (Latency.pop_ready {F = Fixed} queue (integer (pos 7))
      ≡ ok (map message_of (sorted deadline_of (filter (is_due 7) (pending queue))), q'))
    × (pending q' ≡ filter (is_waiting 7) (pending queue))
pop_ready-pending_example = pop_ready-pending queue queue-IsValid Fixed 7 (omega arith)

enqueue-pending_example :
    (q' : LatencyQueue ℕ) × (e : Entry ℕ) × ((Latency.enqueue {F = Fixed}
        (Random.uniform ℕ-Random)
        queue
        (ok 30)
        (integer (pos 4))
        0).0
      ≡ ok q')
    × (pending q' ≡ pending queue ++ (e ∷ []))
    × (e.message ≡ 30)
    × (4 + 5 ≤ e.deadline + 2)
    × (e.deadline ≤ 4 + 5 + 2)
    × (4 ≤ e.deadline)
enqueue-pending_example =
    enqueue-pending Fixed-IsFloat ℕ-IsRandom queue queue-IsValid 30 4 0 (omega arith) (omega arith)

pop_ready-prefix_example :
    (out : List ℕ) × (q' : LatencyQueue ℕ) × (Latency.pop_ready {F = Fixed} steady (integer (pos 7))
      ≡ ok (out, q'))
    × (out ++ map message_of (pending q') ≡ map message_of (pending steady))
    × (map message_of (filter (is_due 7) (pending steady)) ≡ out)
pop_ready-prefix_example = pop_ready-prefix Fixed 3 steady steady-IsFifo 7 (omega arith)

enqueue-IsFifo_example :
    (q' : LatencyQueue ℕ) × (Latency.enqueue {F = Fixed}
        (Random.uniform ℕ-Random)
        steady
        (ok 30)
        (integer (pos 4))
        0
      ≡ (ok q', 0))
    × IsFifo 4 q'
enqueue-IsFifo_example =
    enqueue-IsFifo (Random.uniform ℕ-Random) 3 steady steady-IsFifo 30 4 0 (omega arith)
      (omega arith) (omega arith)
