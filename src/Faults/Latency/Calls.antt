-- ===== src/Faults/Latency/Calls.antt =====
-- Sequences of calls of a queue of faults/latency.py, exceptions included.
use ros2_resilience.Prelude.{List, [], ◌∷◌, ℤ}
use ros2_resilience.Python.Float.{Float}
use ros2_resilience.Python.Result.{Result, ok, raise, Ensures, state_after, Ensures-state_after}
use ros2_resilience.Python.Value.{Value}
use ros2_resilience.Faults.Latency
use ros2_resilience.Faults.Latency.{LatencyQueue}
use ros2_resilience.Faults.Latency.Valid.{
  IsValid, enqueue-IsValid, pop_ready-IsValid, flush-IsValid, configure-IsValid,
}

pub data Call (F T : Type 0) : Type 0 where
  enqueue : Result T → Value F → Call F T
  pop_ready : Value F → Call F T
  flush : Call F T
  configure : Value F → Value F → Call F T

module _ {F T R : Type 0} ⦃f : Float F⦄ (uniform : ℤ → ℤ → R → Value F × R) where
  -- the queue and the generator after a call; an exception leaves the queue as it was
  popped : LatencyQueue T → Result (List T × LatencyQueue T) → LatencyQueue T
  popped q (ok (out, q')) = q'
  popped q (raise e) = q

  after_call : Call F T → LatencyQueue T × R → LatencyQueue T × R
  unfolding popped
  after_call (enqueue m now_ns) (q, r) =
      let (result, r') = Latency.enqueue uniform q m now_ns r in (state_after q result, r')
  after_call (pop_ready now_ns) (q, r) = (popped q (Latency.pop_ready q now_ns), r)
  after_call flush (q, r) = ((Latency.flush q).1, r)
  after_call (configure d j) (q, r) = (state_after q (Latency.configure q d j), r)

  pub run_calls : List (Call F T) → LatencyQueue T × R → LatencyQueue T × R
  run_calls [] s = s
  run_calls (c ∷ cs) s = run_calls cs (after_call c s)

  popped-IsValid :
      (q : LatencyQueue T) (result : Result (List T × LatencyQueue T))
      → IsValid q
      → Ensures (λ p. IsValid p.1) result
      → IsValid (popped q result)
  unfolding popped
  popped-IsValid q (ok p) v h = h
  popped-IsValid q (raise e) v h = v

  after_call-IsValid :
      (c : Call F T) (s : LatencyQueue T × R) → IsValid s.0 → IsValid (after_call c s).0
  unfolding after_call
  after_call-IsValid (enqueue m now_ns) (q, r) v =
      Ensures-state_after IsValid q _ v (enqueue-IsValid uniform q m now_ns r v)
  after_call-IsValid (pop_ready now_ns) (q, r) v =
      popped-IsValid q _ v (pop_ready-IsValid q now_ns v)
  after_call-IsValid flush (q, r) v = flush-IsValid q v
  after_call-IsValid (configure d j) (q, r) v =
      Ensures-state_after IsValid q _ v (configure-IsValid q d j v)

  -- Whatever the calls, whatever they raise, a queue that is valid in the sense of the model stays so.
  pub run_calls-IsValid :
      (cs : List (Call F T)) (s : LatencyQueue T × R) → IsValid s.0 → IsValid (run_calls cs s).0
  unfolding run_calls
  run_calls-IsValid [] s v = v
  run_calls-IsValid (c ∷ cs) s v = run_calls-IsValid cs (after_call c s) (after_call-IsValid c s v)
