-- ===== src/Faults/Injector/Raising.antt =====
-- When the methods of faults/injector.py raise, and when they return.
use ros2_resilience.Prelude.{
  ℕ, ◌+◌, ◌≡◌, ◌<◌, refl, ap, ◌⊎◌, inl, inr, Bool, true, false, not, ◌&&◌, List, [], ◌∷◌, arith,
  leb, map, length, pos, ◌==◌,
}
use ros2_resilience.Python.Float.{Float, IsFloat}
use ros2_resilience.Python.Result.{Error, ok, raise}
use ros2_resilience.Python.Value.{boolean, integer}
use ros2_resilience.Faults.Clock.{IsReached, IsReached-of_behind, validate_time-reached}
use ros2_resilience.Faults.Config.{
  FaultType, healthy, dropout, latency, stale, FaultConfig, is_latency, latency_is_active,
}
use ros2_resilience.Faults.Dropout.{should_drop}
use ros2_resilience.Faults.Dropout.Decision.{should_drop_decides}
use ros2_resilience.Faults.Latency
use ros2_resilience.Faults.Latency.{LatencyQueue, push, sample_delay}
use ros2_resilience.Faults.Latency.Arrivals.{pending, message_of, enqueue-push}
use ros2_resilience.Faults.Latency.Delays.{sample_delay_bounds}
use ros2_resilience.Faults.Latency.Valid.{pop_ready-reached, length-flush, enqueue_uncopied}
use ros2_resilience.Faults.Random.{Random, IsRandom}
use ros2_resilience.Faults.Stale
use ros2_resilience.Faults.Injector.{
  FaultInjector, pending_count, finish, forward, drop_or_forward, receive_dropout, hold_and_deliver,
  receive_latency, dispatch, receive, configure,
}
use ros2_resilience.Faults.Injector.Sound.{IsSound}
use ros2_resilience.Faults.Injector.Calls.{IsProper, rebuilt, rebuild-rebuilt, reseeded}

module _ {F R T : Type 0} ⦃f : Float F⦄ ⦃g : Random F R⦄ where
  -- Leaving the latency mode, at a time that is not before the last one and with a configuration
  -- that passed its checks, `configure` returns all pending messages in the order of arrival and
  -- empties the queue, whatever their deadlines, and counts them as forwarded. The seed is the old
  -- one, or the generator is the injector's own.
  pub configure_flushes :
      (s : FaultInjector F R T) (c : FaultConfig F) (now : ℕ)
      → IsReached s.last_time_ns now
      → IsProper c
      → latency_is_active s.config ≡ true
      → latency_is_active c ≡ false
      → (s.external_rng && not (c.seed == s.config.seed)) ≡ false
      → (s' : FaultInjector F R T) × (configure s c (integer (pos now))
          ≡ (ok (map message_of (pending s.queue)), s'))
        × (pending_count s' ≡ 0)
        × (s'.forwarded ≡ s.forwarded + pending_count s)
        × (s'.config ≡ c)
  unfolding configure Latency.flush pending finish rebuilt reseeded
  configure_flushes s c now reached proper on off allowed =
      let flushed = Latency.flush s.queue in
      let s1 : FaultInjector F R T = record s { queue = flushed.1; rng = reseeded s c } in
      (
        (finish (rebuilt s1 c) 0 now flushed.0).1,
        rw (validate_time-reached F s.last_time_ns now reached, allowed, on, off)
            (rebuild-rebuilt s1 c now flushed.0 proper),
        refl,
        omega (arith, length-flush s.queue),
        refl,
      )

module _ {F R T : Type 0} ⦃f : Float F⦄ ⦃g : Random F R⦄ (fair : IsRandom F R) where
  drop_or_forward_returns :
      (s : FaultInjector F R T) (m : T) (now : ℕ) (b : Bool)
      → (out : List T) × ((drop_or_forward s (ok m) now (ok b)).0 ≡ ok out)
  unfolding drop_or_forward
  drop_or_forward_returns s m now false = ((Stale.take s.hold m).1 ∷ [], refl)
  drop_or_forward_returns s m now true = ([], refl)

  receive_dropout_returns :
      (s : FaultInjector F R T) (m : T) (now : ℕ)
      → (out : List T) × ((receive_dropout s (ok m) now).0 ≡ ok out)
  unfolding receive_dropout
  receive_dropout_returns s m now =
      let rng = (should_drop g.random s.dropper (boolean true) s.rng).1 in
      let (x, sample, answer) = should_drop_decides fair s.dropper true s.rng in
      rw (ap (λ p. p.0) answer) (drop_or_forward_returns (record s { rng = rng }) m now _)

  undecided :
      (s : FaultInjector F R T) (e : Error) (now : ℕ) (b : Bool)
      → (drop_or_forward s (raise e) now (ok b)).0 ≡ raise e
  unfolding drop_or_forward
  undecided s e now false = refl
  undecided s e now true = refl

  module _ (floats : IsFloat F) where
    receive_latency_returns :
        (s : FaultInjector F R T) (m : T) (now : ℕ)
        → IsSound s
        → IsReached s.last_time_ns now
        → pending_count s < s.max_pending
        → (out : List T) × ((receive_latency s (ok m) now).0 ≡ ok out)
    unfolding receive_latency hold_and_deliver push
    receive_latency_returns s m now h reached room =
        let queued = IsReached-of_behind s.queue.last_time_ns s.last_time_ns now h.clock reached in
        let (d, sampled, near, far) = sample_delay_bounds floats fair s.queue s.rng in
        let fits : length s.queue.entries < s.queue.max_pending = rw h.wired.capacity room in
        let pushed =
          enqueue-push s.queue h.wired.queue_valid g.uniform m now s.rng queued fits sampled in
        let q = push s.queue m now d in
        let last : IsReached q.last_time_ns now = omega arith in
        rw (pushed, pop_ready-reached F q now last) (_, refl)

    dispatch_returns :
        (on : Bool) (kind : FaultType) (s : FaultInjector F R T) (m : T) (now : ℕ)
        → IsSound s
        → IsReached s.last_time_ns now
        → (on && is_latency kind ≡ false) ⊎ (pending_count s < s.max_pending)
        → (out : List T) × ((dispatch on kind s (ok m) now).0 ≡ ok out)
    unfolding dispatch forward
    dispatch_returns false kind s m now h reached room = (_, refl)
    dispatch_returns true healthy s m now h reached room = (_, refl)
    dispatch_returns true dropout s m now h reached room = receive_dropout_returns s m now
    dispatch_returns true stale s m now h reached room = (_, refl)
    dispatch_returns true latency s m now h reached (inl off) = absurd (ground arith)
    dispatch_returns true latency s m now h reached (inr room) =
        receive_latency_returns s m now h reached room

    -- With a generator that keeps to Python's documentation, a sound injector takes every message that
    -- can be copied, at a time that is not before the last one, without raising, unless it is in the latency mode and
    -- `max_pending` messages are pending.
    pub receive_returns :
        (s : FaultInjector F R T) (m : T) (now : ℕ)
        → IsSound s
        → IsReached s.last_time_ns now
        → (latency_is_active s.config ≡ false) ⊎ (pending_count s < s.max_pending)
        → (out : List T) × ((receive s (ok m) (integer (pos now))).0 ≡ ok out)
    unfolding receive
    receive_returns s m now h reached room =
        let not_full : (latency_is_active s.config && leb s.max_pending (pending_count s)) ≡ false =
          ground arith in
        rw (validate_time-reached F s.last_time_ns now reached, not_full)
          (dispatch_returns s.config.enabled s.config.fault_type s m now h reached room)

    -- The copy of the message raises, and so does the call, whatever the mode.
    dispatch_uncopied :
        (on : Bool) (kind : FaultType) (s : FaultInjector F R T) (e : Error) (now : ℕ)
        → IsSound s
        → IsReached s.last_time_ns now
        → (on && is_latency kind ≡ false) ⊎ (pending_count s < s.max_pending)
        → (dispatch on kind s (raise e) now).0 ≡ raise e
    unfolding dispatch forward receive_dropout receive_latency drop_or_forward hold_and_deliver
    dispatch_uncopied false kind s e now h reached room = refl
    dispatch_uncopied true healthy s e now h reached room = refl
    dispatch_uncopied true stale s e now h reached room = refl
    dispatch_uncopied true dropout s e now h reached room =
        let (x, sample, answer) = should_drop_decides fair s.dropper true s.rng in
        rw (ap (λ p. p.0) answer) (undecided _ e now _)
    dispatch_uncopied true latency s e now h reached (inl off) = absurd (ground arith)
    dispatch_uncopied true latency s e now h reached (inr room) =
        let queued = IsReached-of_behind s.queue.last_time_ns s.last_time_ns now h.clock reached in
        let fits : length s.queue.entries < s.queue.max_pending = rw h.wired.capacity room in
        rw (enqueue_uncopied g.uniform s.queue e now s.rng queued fits) refl

    pub receive_uncopied :
        (s : FaultInjector F R T) (e : Error) (now : ℕ)
        → IsSound s
        → IsReached s.last_time_ns now
        → (latency_is_active s.config ≡ false) ⊎ (pending_count s < s.max_pending)
        → (receive s (raise e) (integer (pos now))).0 ≡ raise e
    unfolding receive
    receive_uncopied s e now h reached room =
        let not_full : (latency_is_active s.config && leb s.max_pending (pending_count s)) ≡ false =
          ground arith in
        rw (validate_time-reached F s.last_time_ns now reached, not_full)
          (dispatch_uncopied s.config.enabled s.config.fault_type s e now h reached room)
