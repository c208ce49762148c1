-- ===== src/Faults/Injector/Counting.antt =====
-- What the methods of faults/injector.py count: the messages that they take and those that they return.
use ros2_resilience.Prelude.{
  ℕ, ◌+◌, ◌≡◌, refl, inl, inr, Bool, true, false, not, ◌&&◌, List, [], arith, Bool-cases, length,
  pos, leb, ◌==◌,
}
use ros2_resilience.Python.Float.{Float}
use ros2_resilience.Python.Result.{Result, ok, Error, raise, Result-cases}
use ros2_resilience.Python.Value.{Value, boolean, integer}
use ros2_resilience.Faults.Clock
use ros2_resilience.Faults.Config.{
  FaultConfig, FaultType, healthy, dropout, latency, stale, latency_is_active,
}
use ros2_resilience.Faults.Dropout
use ros2_resilience.Faults.Latency
use ros2_resilience.Faults.Latency.{LatencyQueue}
use ros2_resilience.Faults.Stale
use ros2_resilience.Faults.Injector.{
  FaultInjector, Outcome, finish, forward, drop_or_forward, receive_dropout, deliver, dispatch,
  hold_and_deliver, receive_latency, receive, receive_at, poll, poll_at, rebuild, pending_count,
  new_parts, configure, configure_at, reconfigure,
}
use ros2_resilience.Faults.Random.{Random}

-- the messages that a call returned
abbrev pub sent : {T : Type 0} → Result (List T) → ℕ
sent (raise e) = 0
sent (ok out) = length out

-- what a call that takes `n` messages took, which is nothing if it raised
abbrev pub taken : {A : Type 0} → ℕ → Result A → ℕ
taken n (raise e) = 0
taken n (ok a) = n

module _ {F R T : Type 0} ⦃f : Float F⦄ ⦃g : Random F R⦄ where
  -- a call that takes `n` messages counts them, and those that it returns
  pub record Counts (s : FaultInjector F R T) (n : ℕ) (o : Outcome F R T) : Type 0 where
    pub received : o.1.received ≡ s.received + taken n o.0
    pub forwarded : o.1.forwarded ≡ s.forwarded + sent o.0

  refused-Counts : (s : FaultInjector F R T) (n : ℕ) (e : Error) → Counts s n (raise e, s)
  refused-Counts s n e = record { received = omega arith; forwarded = omega arith }

  forward-Counts : (s : FaultInjector F R T) (m : Result T) (now : ℕ) → Counts s 1 (forward s m now)
  unfolding forward finish
  forward-Counts s (raise e) now = refused-Counts s 1 e
  forward-Counts s (ok m) now = record { received = refl; forwarded = refl }

  drop_or_forward-Counts :
      (s : FaultInjector F R T) (m : Result T) (now : ℕ) (r : Result Bool)
      → Counts s 1 (drop_or_forward s m now r)
  unfolding drop_or_forward finish
  drop_or_forward-Counts s m now (raise e) = refused-Counts s 1 e
  drop_or_forward-Counts s m now (ok false) = forward-Counts s m now
  drop_or_forward-Counts s (raise e) now (ok true) = refused-Counts s 1 e
  drop_or_forward-Counts s (ok m) now (ok true) = record { received = refl; forwarded = refl }

  deliver-Counts :
      (s : FaultInjector F R T) (n now : ℕ) (r : Result (List T × LatencyQueue T))
      → Counts s n (deliver s n now r)
  unfolding deliver finish
  deliver-Counts s n now (raise e) = refused-Counts s n e
  deliver-Counts s n now (ok (out, q)) = record { received = refl; forwarded = refl }

  hold_and_deliver-Counts :
      (s : FaultInjector F R T) (m : Result T) (now : ℕ) (r : Result (LatencyQueue T))
      → Counts s 1 (hold_and_deliver s m now r)
  unfolding hold_and_deliver
  hold_and_deliver-Counts s m now (raise e) = refused-Counts s 1 e
  hold_and_deliver-Counts s (raise e) now (ok q) = record {
    received = omega arith;
    forwarded = omega arith;
  }
  hold_and_deliver-Counts s (ok m) now (ok q) =
      let s1 : FaultInjector F R T = record s { queue = q; hold = (Stale.take s.hold m).0 } in
      let k = deliver-Counts s1 1 now (Latency.pop_ready {F = F} q (integer (pos now))) in
      record { received = k.received; forwarded = k.forwarded }

  dispatch-Counts :
      (on : Bool) (kind : FaultType) (s : FaultInjector F R T) (m : Result T) (now : ℕ)
      → Counts s 1 (dispatch on kind s m now)
  unfolding dispatch receive_dropout receive_latency
  dispatch-Counts false kind s m now = forward-Counts s m now
  dispatch-Counts true healthy s m now = forward-Counts s m now
  dispatch-Counts true dropout s m now =
      let (answer, rng) = Dropout.should_drop g.random s.dropper (boolean true) s.rng in
      let k = drop_or_forward-Counts (record s { rng = rng }) m now answer in
      record { received = k.received; forwarded = k.forwarded }
  dispatch-Counts true latency s m now =
      let (q, rng) = Latency.enqueue g.uniform s.queue m (integer (pos now)) s.rng in
      let k = hold_and_deliver-Counts (record s { rng = rng }) m now q in
      record { received = k.received; forwarded = k.forwarded }
  dispatch-Counts true stale s m now = forward-Counts s m now

  receive_at-Counts :
      (s : FaultInjector F R T) (m : Result T) (time : Result ℕ) → Counts s 1 (receive_at s m time)
  unfolding receive_at
  receive_at-Counts s m (raise e) = refused-Counts s 1 e
  receive_at-Counts s m (ok now) =
      elim (Bool-cases (latency_is_active s.config && leb s.max_pending (pending_count s))) [
        | inl full ↦ rw full (refused-Counts s 1 _)
        | inr room ↦ rw room (dispatch-Counts s.config.enabled s.config.fault_type s m now)
      ]

  pub receive-Counts :
      (s : FaultInjector F R T) (m : Result T) (now_ns : Value F) → Counts s 1 (receive s m now_ns)
  unfolding receive
  receive-Counts s m now_ns = receive_at-Counts s m (Clock.validate_time s.last_time_ns now_ns)

  poll_at-Counts : (s : FaultInjector F R T) (time : Result ℕ) → Counts s 0 (poll_at s time)
  unfolding poll_at finish
  poll_at-Counts s (raise e) = refused-Counts s 0 e
  poll_at-Counts s (ok now) = elim (Bool-cases (latency_is_active s.config)) [
    | inl on ↦
        rw on (deliver-Counts s 0 now (Latency.pop_ready {F = F} s.queue (integer (pos now))))
    | inr off ↦ rw off (record { received = refl; forwarded = refl })
  ]

  pub poll-Counts : (s : FaultInjector F R T) (now_ns : Value F) → Counts s 0 (poll s now_ns)
  unfolding poll
  poll-Counts s now_ns = poll_at-Counts s (Clock.validate_time s.last_time_ns now_ns)

  rebuild-Counts :
      (s : FaultInjector F R T) (c : FaultConfig F) (now : ℕ) (flushed : List T)
      → Counts s 0 (rebuild s c now flushed)
  unfolding rebuild finish
  rebuild-Counts s c now flushed = elim (Result-cases (new_parts s c)) [
    | inl (e, same) ↦ rw (same, rebuild) (refused-Counts s 0 e)
    | inr (parts, same) ↦ rw (same, rebuild) (record { received = refl; forwarded = refl })
  ]

  configure_at-Counts :
      (s : FaultInjector F R T) (c : FaultConfig F) (time : Result ℕ)
      → Counts s 0 (configure_at s c time)
  unfolding configure_at reconfigure
  configure_at-Counts s c (raise e) = refused-Counts s 0 e
  configure_at-Counts s c (ok now) =
      elim (Bool-cases (s.external_rng && not (c.seed == s.config.seed))) [
        | inl refused ↦ rw refused (refused-Counts s 0 _)
        | inr allowed ↦
            elim (Bool-cases (latency_is_active s.config && not (latency_is_active c))) [
              | inl leaves ↦
                  rw (allowed, leaves)
                    (let k = rebuild-Counts (record s { queue = _; rng = _ }) c now _ in
                      record { received = k.received; forwarded = k.forwarded })
              | inr stays ↦
                  rw (allowed, stays)
                    (let k = rebuild-Counts (record s { rng = _ }) c now [] in
                      record { received = k.received; forwarded = k.forwarded })
            ]
      ]

  pub configure-Counts :
      (s : FaultInjector F R T) (c : FaultConfig F) (now_ns : Value F)
      → Counts s 0 (configure s c now_ns)
  unfolding configure
  configure-Counts s c now_ns = configure_at-Counts s c (Clock.validate_time s.last_time_ns now_ns)
