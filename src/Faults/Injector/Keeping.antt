-- ===== src/Faults/Injector/Keeping.antt =====
-- What every method of faults/injector.py keeps, exceptions included: the clock and the owner of the
-- generator.
use ros2_resilience.Prelude.{
  ℕ, ◌≡◌, refl, inl, inr, Bool, true, false, not, ◌&&◌, List, [], arith, Bool-cases, pos, leb, ◌==◌,
}
use ros2_resilience.Python.Float.{Float}
use ros2_resilience.Python.Result.{
  Result, ok, Error, raise, queue_overflow, value_error, Result-cases,
}
use ros2_resilience.Python.Value.{boolean, integer}
use ros2_resilience.Faults.Clock.{IsReached, validate_time-reached}
use ros2_resilience.Faults.Config.{
  FaultConfig, FaultType, healthy, dropout, latency, stale, latency_is_active,
}
use ros2_resilience.Faults.Dropout
use ros2_resilience.Faults.Latency
use ros2_resilience.Faults.Latency.{LatencyQueue}
use ros2_resilience.Faults.Stale
use ros2_resilience.Faults.Injector.{
  FaultInjector, Outcome, finish, forward, drop_or_forward, receive_dropout, deliver, dispatch,
  hold_and_deliver, receive_latency, receive, poll, rebuild, pending_count, new_parts, configure,
}
use ros2_resilience.Faults.Injector.Calls.{reseeded}
use ros2_resilience.Faults.Random.{Random}

module _ {F R T : Type 0} ⦃f : Float F⦄ ⦃g : Random F R⦄ where
  -- The call keeps the last time within `now` and leaves the generator's owner.
  pub record Keeps (s : FaultInjector F R T) (now : ℕ) (o : Outcome F R T) : Type 0 where
    pub clock : IsReached o.1.last_time_ns now
    pub owner : o.1.external_rng ≡ s.external_rng

  refused-Keeps :
      (s : FaultInjector F R T) (now : ℕ) (e : Error)
      → IsReached s.last_time_ns now
      → Keeps s now (raise e, s)
  refused-Keeps s now e h = record { clock = h; owner = refl }

  forward-Keeps :
      (s : FaultInjector F R T) (m : Result T) (now : ℕ)
      → IsReached s.last_time_ns now
      → Keeps s now (forward s m now)
  unfolding forward finish
  forward-Keeps s (raise e) now h = refused-Keeps s now e h
  forward-Keeps s (ok m) now h = record { clock = omega arith; owner = refl }

  drop_or_forward-Keeps :
      (s : FaultInjector F R T) (m : Result T) (now : ℕ) (r : Result Bool)
      → IsReached s.last_time_ns now
      → Keeps s now (drop_or_forward s m now r)
  unfolding drop_or_forward finish
  drop_or_forward-Keeps s m now (raise e) h = record { clock = h; owner = refl }
  drop_or_forward-Keeps s m now (ok false) h = forward-Keeps s m now h
  drop_or_forward-Keeps s (raise e) now (ok true) h = refused-Keeps s now e h
  drop_or_forward-Keeps s (ok m) now (ok true) h = record { clock = omega arith; owner = refl }

  receive_dropout-Keeps :
      (s : FaultInjector F R T) (m : Result T) (now : ℕ)
      → IsReached s.last_time_ns now
      → Keeps s now (receive_dropout s m now)
  unfolding receive_dropout
  receive_dropout-Keeps s m now h =
      let (answer, rng) = Dropout.should_drop g.random s.dropper (boolean true) s.rng in
      let k = drop_or_forward-Keeps (record s { rng = rng }) m now answer h in
      record { clock = k.clock; owner = k.owner }

  deliver-Keeps :
      (s : FaultInjector F R T) (n now : ℕ) (r : Result (List T × LatencyQueue T))
      → IsReached s.last_time_ns now
      → Keeps s now (deliver s n now r)
  unfolding deliver finish
  deliver-Keeps s n now (raise e) h = record { clock = h; owner = refl }
  deliver-Keeps s n now (ok (out, q)) h = record { clock = omega arith; owner = refl }

  hold_and_deliver-Keeps :
      (s : FaultInjector F R T) (m : Result T) (now : ℕ) (r : Result (LatencyQueue T))
      → IsReached s.last_time_ns now
      → Keeps s now (hold_and_deliver s m now r)
  unfolding hold_and_deliver
  hold_and_deliver-Keeps s m now (raise e) h = record { clock = h; owner = refl }
  hold_and_deliver-Keeps s (raise e) now (ok q) h = record { clock = h; owner = refl }
  hold_and_deliver-Keeps s (ok m) now (ok q) h =
      let s1 : FaultInjector F R T = record s { queue = q; hold = (Stale.take s.hold m).0 } in
      let k = deliver-Keeps s1 1 now (Latency.pop_ready {F = F} q (integer (pos now))) h in
      record { clock = k.clock; owner = k.owner }

  receive_latency-Keeps :
      (s : FaultInjector F R T) (m : Result T) (now : ℕ)
      → IsReached s.last_time_ns now
      → Keeps s now (receive_latency s m now)
  unfolding receive_latency
  receive_latency-Keeps s m now h =
      let (q, rng) = Latency.enqueue g.uniform s.queue m (integer (pos now)) s.rng in
      let k = hold_and_deliver-Keeps (record s { rng = rng }) m now q h in
      record { clock = k.clock; owner = k.owner }

  dispatch-Keeps :
      (on : Bool) (kind : FaultType) (s : FaultInjector F R T) (m : Result T) (now : ℕ)
      → IsReached s.last_time_ns now
      → Keeps s now (dispatch on kind s m now)
  unfolding dispatch
  dispatch-Keeps false kind s m now h = forward-Keeps s m now h
  dispatch-Keeps true healthy s m now h = forward-Keeps s m now h
  dispatch-Keeps true dropout s m now h = receive_dropout-Keeps s m now h
  dispatch-Keeps true latency s m now h = receive_latency-Keeps s m now h
  dispatch-Keeps true stale s m now h = forward-Keeps s m now h

  pub receive-Keeps :
      (s : FaultInjector F R T) (m : Result T) (now : ℕ)
      → IsReached s.last_time_ns now
      → Keeps s now (receive s m (integer (pos now)))
  unfolding receive
  receive-Keeps s m now h =
      rw (validate_time-reached F s.last_time_ns now h)
        (elim (Bool-cases (latency_is_active s.config && leb s.max_pending (pending_count s))) [
          | inl full ↦ rw full (refused-Keeps s now queue_overflow h)
          | inr room ↦ rw room (dispatch-Keeps s.config.enabled s.config.fault_type s m now h)
        ])

  pub poll-Keeps :
      (s : FaultInjector F R T) (now : ℕ)
      → IsReached s.last_time_ns now
      → Keeps s now (poll s (integer (pos now)))
  unfolding poll finish
  poll-Keeps s now h =
      rw (validate_time-reached F s.last_time_ns now h)
        (elim (Bool-cases (latency_is_active s.config)) [
          | inl on ↦
              rw on
                (deliver-Keeps s 0 now (Latency.pop_ready {F = F} s.queue (integer (pos now))) h)
          | inr off ↦ rw off (record { clock = omega arith; owner = refl })
        ])

  rebuild-Keeps :
      (s : FaultInjector F R T) (c : FaultConfig F) (now : ℕ) (flushed : List T)
      → IsReached s.last_time_ns now
      → Keeps s now (rebuild s c now flushed)
  unfolding rebuild finish
  rebuild-Keeps s c now flushed h = elim (Result-cases (new_parts s c)) [
    | inl (e, same) ↦ rw (same, rebuild) (refused-Keeps s now e h)
    | inr (parts, same) ↦ rw (same, rebuild) (record { clock = omega arith; owner = refl })
  ]

  pub configure-Keeps :
      (s : FaultInjector F R T) (c : FaultConfig F) (now : ℕ)
      → IsReached s.last_time_ns now
      → Keeps s now (configure s c (integer (pos now)))
  unfolding configure reseeded
  configure-Keeps s c now h =
      rw (validate_time-reached F s.last_time_ns now h)
        (elim (Bool-cases (s.external_rng && not (c.seed == s.config.seed))) [
          | inl refused ↦ rw refused (refused-Keeps s now value_error h)
          | inr allowed ↦
              rw allowed
                (elim (Bool-cases (latency_is_active s.config && not (latency_is_active c))) [
                  | inl leaves ↦ rw leaves (
                      let (flushed, q) = Latency.flush s.queue in
                      let k =
                        rebuild-Keeps (record s { queue = q; rng = reseeded s c }) c now flushed
                          h in
                      record { clock = k.clock; owner = k.owner })
                  | inr stays ↦ rw stays (
                      let k = rebuild-Keeps (record s { rng = reseeded s c }) c now [] h in
                      record { clock = k.clock; owner = k.owner })
                ])
        ])
