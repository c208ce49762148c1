-- ===== src/Faults/Injector/Sound.antt =====
-- The invariant of the injector of faults/injector.py, and that `receive` keeps it.
use ros2_resilience.Prelude.{
  ℕ, ◌+◌, ◌<◌, ◌≡◌, refl, ◌∙◌, ◌⊎◌, inl, inr, Bool, true, false, ◌&&◌, Option, none, some, List, [],
  ◌∷◌, arith, leb, Bool-cases, length, pos,
}
use ros2_resilience.Python.Float.{Float}
use ros2_resilience.Python.Result.{Result, ok, raise}
use ros2_resilience.Python.Value.{Value, integer}
use ros2_resilience.Faults.Clock.{IsReached, IsBehind, IsReached-of_behind, validate_time-ok}
use ros2_resilience.Faults.Config.{
  FaultType, healthy, dropout, latency, stale, stale_is_active, latency_is_active,
}
use ros2_resilience.Faults.Latency
use ros2_resilience.Faults.Latency.{LatencyQueue, push, pop_due}
use ros2_resilience.Faults.Latency.Heap.{length-heappush, length-pop_due}
use ros2_resilience.Faults.Latency.Valid.{
  IsValid, push-IsValid, popped-IsValid, enqueue-ok, enqueue_uncopied-fails, pop_ready-reached,
}
use ros2_resilience.Faults.Random.{Random}
use ros2_resilience.Faults.Stale
use ros2_resilience.Faults.Stale.Samples.{receive-enabled}
use ros2_resilience.Faults.Injector.{
  FaultInjector, pending_count, finish, forward, drop_or_forward, receive_dropout, deliver,
  hold_and_deliver, receive_latency, dispatch, receive_at, receive,
}

module _ {F R T : Type 0} where
  -- how the parts of an injector belong together
  pub record IsWired (s : FaultInjector F R T) : Type 0 where
    pub queue_valid : IsValid s.queue
    pub idle : (latency_is_active s.config ≡ true) ⊎ (s.queue.entries ≡ [])
    pub capacity : s.queue.max_pending ≡ s.max_pending
    pub hold_mode : s.hold.enabled ≡ stale_is_active s.config
    pub probability : s.dropper.probability ≡ s.config.drop_probability

  -- the invariant: the counts balance, and the clock of the queue is behind that of the injector
  pub record IsSound (s : FaultInjector F R T) : Type 0 where
    pub wired : IsWired s
    pub conserved : s.received ≡ s.forwarded + s.dropped + pending_count s
    pub clock : IsBehind s.queue.last_time_ns s.last_time_ns

  -- before `finish` counts `arrivals` inputs and `outputs` outputs at the time `now`
  pub record IsAlmost (s : FaultInjector F R T) (arrivals outputs now : ℕ) : Type 0 where
    pub wired : IsWired s
    pub balance : s.received + arrivals ≡ s.forwarded + outputs + s.dropped + pending_count s
    pub clock : IsReached s.queue.last_time_ns now

IsBehind-now : (last : Option ℕ) (now : ℕ) → IsReached last now → IsBehind last (some now)
IsBehind-now none now h = tt
IsBehind-now (some l) now h = h

module _ {F R T : Type 0} ⦃f : Float F⦄ ⦃g : Random F R⦄ where
  pub finish-IsSound :
      (s : FaultInjector F R T) (arrivals now : ℕ) (out : List T)
      → IsAlmost s arrivals (length out) now
      → IsSound (finish s arrivals now out).1
  unfolding finish
  finish-IsSound s arrivals now out h = record {
    wired = record {
      queue_valid = h.wired.queue_valid;
      idle = h.wired.idle;
      capacity = h.wired.capacity;
      hold_mode = h.wired.hold_mode;
      probability = h.wired.probability;
    };
    conserved = omega (arith, h.balance);
    clock = IsBehind-now s.queue.last_time_ns now h.clock;
  }

  rewired :
      (s : FaultInjector F R T) (m : T) (rng : R) (n : ℕ)
      → IsWired s
      → IsWired (record s { rng = rng; hold = (Stale.take s.hold m).0; dropped = n })
  rewired s m rng n w = record {
    queue_valid = w.queue_valid;
    idle = w.idle;
    capacity = w.capacity;
    hold_mode = receive-enabled s.hold m ∙ w.hold_mode;
    probability = w.probability;
  }

  redrawn : (s : FaultInjector F R T) (rng : R) → IsSound s → IsSound (record s { rng = rng })
  redrawn s rng h = record {
    wired = record {
      queue_valid = h.wired.queue_valid;
      idle = h.wired.idle;
      capacity = h.wired.capacity;
      hold_mode = h.wired.hold_mode;
      probability = h.wired.probability;
    };
    conserved = h.conserved;
    clock = h.clock;
  }

  pub forward-IsSound :
      (s : FaultInjector F R T) (m : Result T) (now : ℕ)
      → IsSound s
      → IsReached s.last_time_ns now
      → IsSound (forward s m now).1
  unfolding forward
  forward-IsSound s (raise e) now h reached = h
  forward-IsSound s (ok m) now h reached =
      finish-IsSound _ 1 now ((Stale.take s.hold m).1 ∷ []) (record {
        wired = rewired s m s.rng s.dropped h.wired;
        balance = omega (arith, h.conserved);
        clock = IsReached-of_behind s.queue.last_time_ns s.last_time_ns now h.clock reached;
      })

  drop_or_forward-IsSound :
      (s : FaultInjector F R T) (m : Result T) (now : ℕ) (answer : Result Bool)
      → IsSound s
      → IsReached s.last_time_ns now
      → IsSound (drop_or_forward s m now answer).1
  unfolding drop_or_forward
  drop_or_forward-IsSound s m now (raise e) h reached = h
  drop_or_forward-IsSound s m now (ok false) h reached = forward-IsSound s m now h reached
  drop_or_forward-IsSound s (raise e) now (ok true) h reached = h
  drop_or_forward-IsSound s (ok m) now (ok true) h reached = finish-IsSound _ 1 now [] (record {
    wired = rewired s m s.rng (s.dropped + 1) h.wired;
    balance = omega (arith, h.conserved);
    clock = IsReached-of_behind s.queue.last_time_ns s.last_time_ns now h.clock reached;
  })

  receive_dropout-IsSound :
      (s : FaultInjector F R T) (m : Result T) (now : ℕ)
      → IsSound s
      → IsReached s.last_time_ns now
      → IsSound (receive_dropout s m now).1
  unfolding receive_dropout
  receive_dropout-IsSound s m now h reached =
      drop_or_forward-IsSound _ m now _ (redrawn s _ h) reached

  -- `pop_ready` at a time that the queue has not passed
  pub deliver-IsSound :
      (s : FaultInjector F R T) (arrivals now : ℕ)
      → IsAlmost s arrivals 0 now
      → latency_is_active s.config ≡ true
      → IsSound (deliver s arrivals now (Latency.pop_ready {F = F} s.queue (integer (pos now)))).1
  unfolding deliver
  deliver-IsSound s arrivals now h on = rw (pop_ready-reached F s.queue now h.clock) (
      finish-IsSound
        (record s {
          queue = record s.queue {
            entries = (pop_due now s.queue.entries).1;
            last_time_ns = some now;
          };
        })
        arrivals now (pop_due now s.queue.entries).0
        (record {
          wired = record {
            queue_valid = popped-IsValid s.queue now h.wired.queue_valid;
            idle = inl on;
            capacity = h.wired.capacity;
            hold_mode = h.wired.hold_mode;
            probability = h.wired.probability;
          };
          balance = omega (arith, h.balance, length-pop_due now s.queue.entries);
          clock = omega arith;
        }))

  hold_and_deliver-IsSound :
      (s : FaultInjector F R T) (m : T) (now delay : ℕ)
      → IsSound s
      → latency_is_active s.config ≡ true
      → length s.queue.entries < s.queue.max_pending
      → IsSound (hold_and_deliver s (ok m) now (ok (push s.queue m now delay))).1
  unfolding hold_and_deliver push
  hold_and_deliver-IsSound s m now delay h on room =
      deliver-IsSound _ 1 now
        (record {
          wired = record {
            queue_valid = push-IsValid s.queue m now delay h.wired.queue_valid room;
            idle = inl on;
            capacity = h.wired.capacity;
            hold_mode = receive-enabled s.hold m ∙ h.wired.hold_mode;
            probability = h.wired.probability;
          };
          balance = omega (
            arith,
            h.conserved,
            length-heappush
                (record { deadline = now + delay; sequence = s.queue.next_sequence; message = m })
                s.queue.entries,
          );
          clock = omega arith;
        })
        on

  receive_latency-IsSound :
      (s : FaultInjector F R T) (m : Result T) (now : ℕ)
      → IsSound s
      → IsReached s.last_time_ns now
      → latency_is_active s.config ≡ true
      → IsSound (receive_latency s m now).1
  unfolding receive_latency
  receive_latency-IsSound s m now h reached on = outcome m _ refl
    where
      queued : IsReached s.queue.last_time_ns now
      queued = IsReached-of_behind s.queue.last_time_ns s.last_time_ns now h.clock reached

      rng' : R
      rng' = (Latency.enqueue g.uniform s.queue m (integer (pos now)) s.rng).1

      outcome :
          (x : Result T) (result : Result (LatencyQueue T))
          → (Latency.enqueue g.uniform s.queue x (integer (pos now)) s.rng).0 ≡ result
          → IsSound (hold_and_deliver (record s { rng = rng' }) x now result).1
      outcome x (raise e) p = redrawn s rng' h
      outcome (raise e) (ok q) p =
          absurd (enqueue_uncopied-fails g.uniform s.queue e now s.rng queued p)
      outcome (ok m) (ok q) p =
          let (delay, same, room) = enqueue-ok g.uniform s.queue m now s.rng queued p in
          rw same (
            hold_and_deliver-IsSound (record s { rng = rng' }) m now delay (redrawn s rng' h) on
              room)

  dispatch-IsSound :
      (on : Bool) (kind : FaultType) (s : FaultInjector F R T) (m : Result T) (now : ℕ)
      → s.config.enabled ≡ on
      → s.config.fault_type ≡ kind
      → IsSound s
      → IsReached s.last_time_ns now
      → IsSound (dispatch on kind s m now).1
  unfolding dispatch
  dispatch-IsSound false kind s m now p q h reached = forward-IsSound s m now h reached
  dispatch-IsSound true healthy s m now p q h reached = forward-IsSound s m now h reached
  dispatch-IsSound true dropout s m now p q h reached = receive_dropout-IsSound s m now h reached
  dispatch-IsSound true latency s m now p q h reached =
      receive_latency-IsSound s m now h reached (rw (p, q))
  dispatch-IsSound true stale s m now p q h reached = forward-IsSound s m now h reached

  receive_at-IsSound :
      (s : FaultInjector F R T) (m : Result T) (time : Result ℕ)
      → ((now : ℕ) → time ≡ ok now → IsReached s.last_time_ns now)
      → IsSound s
      → IsSound (receive_at s m time).1
  unfolding receive_at
  receive_at-IsSound s m (raise e) forward h = h
  receive_at-IsSound s m (ok now) forward h =
      elim (Bool-cases (latency_is_active s.config && leb s.max_pending (pending_count s))) [
        | inl full ↦ rw full h
        | inr room ↦ rw room (dispatch-IsSound _ _ s m now refl refl h (forward now refl))
      ]

  pub receive-IsSound :
      (s : FaultInjector F R T) (m : Result T) (now_ns : Value F)
      → IsSound s
      → IsSound (receive s m now_ns).1
  unfolding receive
  receive-IsSound s m now_ns h =
      receive_at-IsSound s m _ (λ now. validate_time-ok s.last_time_ns now_ns) h
