-- ===== src/Faults/Injector/Calls.antt =====
-- Sequences of calls of an injector of faults/injector.py, exceptions included: no message is lost.
use ros2_resilience.Prelude.{
  ℕ, zero, suc, ◌+◌, ◌≤◌, ◌≡◌, refl, ◌⊎◌, inl, inr, true, not, ◌&&◌, Option, List, [], ◌∷◌, arith,
  Bool-cases, if◌then◌else◌, length, All, ◌==◌,
}
use mathlib.Core.Path.{subst}
use ros2_resilience.Python.Float.{Float}
use ros2_resilience.Python.Result.{Result, ok, raise, Ensures, Ensures-bind}
use ros2_resilience.Python.Value.{Value, in_unit_range, validate_positive_int}
use ros2_resilience.Faults.Clock.{IsReached, IsReached-of_behind, validate_time-ok}
use ros2_resilience.Faults.Config.{FaultConfig, stale_is_active, latency_is_active}
use ros2_resilience.Faults.Latency
use ros2_resilience.Faults.Latency.Valid.{flush-IsValid, length-flush}
use ros2_resilience.Faults.Random.{Random}
use ros2_resilience.Faults.Stale.{next_held}
use ros2_resilience.Faults.Injector
use ros2_resilience.Faults.Injector.{
  FaultInjector, Outcome, assemble, pending_count, finish, poll_at, new_parts, rebuild, reconfigure,
  configure_at,
}
use ros2_resilience.Faults.Injector.Counting.{
  Counts, taken, sent, receive-Counts, poll-Counts, configure-Counts,
}
use ros2_resilience.Faults.Injector.Sound.{
  IsSound, IsAlmost, finish-IsSound, deliver-IsSound, receive-IsSound,
}

module _ {F : Type 0} ⦃f : Float F⦄ where
  -- what the checks of `FaultConfig` leave of the probability
  abbrev pub IsProper : FaultConfig F → Type 0
  IsProper c = in_unit_range c.drop_probability ≡ true

module _ {F R T : Type 0} ⦃f : Float F⦄ ⦃g : Random F R⦄ where
  poll_at-IsSound :
      (s : FaultInjector F R T) (time : Result ℕ)
      → ((now : ℕ) → time ≡ ok now → IsReached s.last_time_ns now)
      → IsSound s
      → IsSound (poll_at s time).1
  unfolding poll_at
  poll_at-IsSound s (raise e) forward h = h
  poll_at-IsSound s (ok now) forward h =
      let reached =
        IsReached-of_behind s.queue.last_time_ns s.last_time_ns now h.clock (forward now refl) in
      let almost : IsAlmost s 0 0 now = record {
        wired = h.wired;
        balance = omega (arith, h.conserved);
        clock = reached;
      } in
      elim (Bool-cases (latency_is_active s.config)) [
        | inl on ↦ rw on (deliver-IsSound s 0 now almost on)
        | inr off ↦ rw off (finish-IsSound s 0 now [] almost)
      ]

  pub poll-IsSound :
      (s : FaultInjector F R T) (now_ns : Value F) → IsSound s → IsSound (Injector.poll s now_ns).1
  unfolding Injector.poll
  poll-IsSound s now_ns h = poll_at-IsSound s _ (λ now. validate_time-ok s.last_time_ns now_ns) h

  -- the injector with its parts made anew for a proper configuration
  unfoldable pub rebuilt : FaultInjector F R T → FaultConfig F → FaultInjector F R T
  rebuilt s c = record s {
    dropper = record { probability = c.drop_probability };
    queue = record s.queue { delay_ns = c.delay_ns; jitter_ns = c.jitter_ns };
    hold = record s.hold {
      enabled = stale_is_active c;
      held = next_held (stale_is_active c) s.hold.enabled s.hold.latest s.hold.held;
    };
    config = c;
  }

  proper_parts :
      (s : FaultInjector F R T) (c : FaultConfig F)
      → IsProper c
      → new_parts s c ≡ ok ((rebuilt s c).dropper, (rebuilt s c).queue, (rebuilt s c).hold)
  unfolding new_parts rebuilt
  proper_parts s c proper = rw proper

  pub rebuild-rebuilt :
      (s : FaultInjector F R T) (c : FaultConfig F) (now : ℕ) (flushed : List T)
      → IsProper c
      → rebuild s c now flushed ≡ finish (rebuilt s c) 0 now flushed
  unfolding rebuild finish rebuilt
  rebuild-rebuilt s c now flushed proper = rw (proper_parts s c proper, rebuild)

  rebuild-IsSound :
      (s : FaultInjector F R T) (c : FaultConfig F) (now : ℕ) (flushed : List T)
      → IsProper c
      → IsAlmost s 0 (length flushed) now
      → (latency_is_active c ≡ true) ⊎ (s.queue.entries ≡ [])
      → IsSound (rebuild s c now flushed).1
  unfolding rebuilt
  rebuild-IsSound s c now flushed proper h idle = rw (rebuild-rebuilt s c now flushed proper) (
      finish-IsSound (rebuilt s c) 0 now flushed (record {
        wired = record {
          queue_valid = record {
            ordered = h.wired.queue_valid.ordered;
            numbered = h.wired.queue_valid.numbered;
            fits = h.wired.queue_valid.fits;
          };
          idle = idle;
          capacity = h.wired.capacity;
          hold_mode = refl;
          probability = refl;
        };
        balance = h.balance;
        clock = h.clock;
      }))

  -- the generator after `configure`
  unfoldable pub reseeded : FaultInjector F R T → FaultConfig F → R
  reseeded s c =
      if not s.external_rng && not (c.seed == s.config.seed) then g.seed c.seed else s.rng

  reconfigure-IsSound :
      (s : FaultInjector F R T) (c : FaultConfig F) (now : ℕ)
      → IsProper c
      → IsReached s.last_time_ns now
      → IsSound s
      → IsSound (reconfigure s c now).1
  unfolding reconfigure reseeded Latency.flush
  reconfigure-IsSound s c now proper reached h =
      let leaving = latency_is_active s.config && not (latency_is_active c) in
      let clock = IsReached-of_behind s.queue.last_time_ns s.last_time_ns now h.clock reached in
      elim (Bool-cases leaving) [
        | inl leaves ↦ rw leaves (
            rebuild-IsSound (record s { queue = (Latency.flush s.queue).1; rng = reseeded s c }) c
              now (Latency.flush s.queue).0 proper
              (record {
                wired = record {
                  queue_valid = flush-IsValid s.queue h.wired.queue_valid;
                  idle = inr refl;
                  capacity = h.wired.capacity;
                  hold_mode = h.wired.hold_mode;
                  probability = h.wired.probability;
                };
                balance = omega (arith, h.conserved, length-flush s.queue);
                clock = clock;
              })
              (inr refl))
        | inr stays ↦ rw stays (
            rebuild-IsSound (record s { rng = reseeded s c }) c now [] proper
              (record {
                wired = record {
                  queue_valid = h.wired.queue_valid;
                  idle = h.wired.idle;
                  capacity = h.wired.capacity;
                  hold_mode = h.wired.hold_mode;
                  probability = h.wired.probability;
                };
                balance = omega (arith, h.conserved);
                clock = clock;
              })
              (ground (arith, h.wired.idle)))
      ]

  configure_at-IsSound :
      (s : FaultInjector F R T) (c : FaultConfig F) (time : Result ℕ)
      → IsProper c
      → ((now : ℕ) → time ≡ ok now → IsReached s.last_time_ns now)
      → IsSound s
      → IsSound (configure_at s c time).1
  unfolding configure_at
  configure_at-IsSound s c (raise e) proper forward h = h
  configure_at-IsSound s c (ok now) proper forward h =
      elim (Bool-cases (s.external_rng && not (c.seed == s.config.seed))) [
        | inl refused ↦ rw refused h
        | inr allowed ↦ rw allowed (reconfigure-IsSound s c now proper (forward now refl) h)
      ]

  pub configure-IsSound :
      (s : FaultInjector F R T) (c : FaultConfig F) (now_ns : Value F)
      → IsProper c
      → IsSound s
      → IsSound (Injector.configure s c now_ns).1
  unfolding Injector.configure
  configure-IsSound s c now_ns proper h =
      configure_at-IsSound s c _ proper (λ now. validate_time-ok s.last_time_ns now_ns) h

module _ {F R : Type 0} ⦃f : Float F⦄ ⦃g : Random F R⦄ (T : Type 0) where
  assemble-IsSound :
      (c : FaultConfig F) (capacity : ℕ) (rng : Option R)
      → IsProper c
      → Ensures (IsSound {T = T}) (assemble c capacity rng)
  unfolding assemble
  assemble-IsSound c zero rng proper = rw proper tt
  assemble-IsSound c (suc n) rng proper = rw proper (record {
    wired = record {
      queue_valid = record { ordered = tt; numbered = tt; fits = omega arith };
      idle = inr refl;
      capacity = refl;
      hold_mode = refl;
      probability = refl;
    };
    conserved = omega arith;
    clock = tt;
  })

  -- the state after `__init__`
  pub init-IsSound :
      (c : FaultConfig F) (max_pending : Value F) (rng : Option R)
      → IsProper c
      → Ensures (IsSound {T = T}) (Injector.init c max_pending rng)
  unfolding Injector.init
  init-IsSound c max_pending rng proper =
      Ensures-bind IsSound (validate_positive_int max_pending) _
        λ capacity _. assemble-IsSound c capacity rng proper

-- nothing is counted yet
abbrev IsUnused : {F R T : Type 0} → FaultInjector F R T → Type 0
IsUnused s = (s.received ≡ 0) × (s.forwarded ≡ 0)

module _ {F R : Type 0} ⦃f : Float F⦄ ⦃g : Random F R⦄ (T : Type 0) where
  assemble-IsUnused :
      (c : FaultConfig F) (capacity : ℕ) (rng : Option R)
      → IsProper c
      → Ensures (IsUnused {T = T}) (assemble c capacity rng)
  unfolding assemble
  assemble-IsUnused c zero rng proper = rw proper tt
  assemble-IsUnused c (suc n) rng proper = rw proper (refl, refl)

  init-IsUnused :
      (c : FaultConfig F) (max_pending : Value F) (rng : Option R)
      → IsProper c
      → Ensures (IsUnused {T = T}) (Injector.init c max_pending rng)
  unfolding Injector.init
  init-IsUnused c max_pending rng proper =
      Ensures-bind IsUnused (validate_positive_int max_pending) _
        λ capacity _. assemble-IsUnused c capacity rng proper

pub data Call (F T : Type 0) : Type 0 where
  receive : Result T → Value F → Call F T
  poll : Value F → Call F T
  configure : FaultConfig F → Value F → Call F T

-- the messages that a call gives, if it does not raise
abbrev pub takes : {F T : Type 0} → Call F T → ℕ
takes (receive m now_ns) = 1
takes (poll now_ns) = 0
takes (configure c now_ns) = 0

-- A configuration that is passed has been through the checks of `FaultConfig`.
abbrev pub HasProper : {F T : Type 0} ⦃f : Float F⦄ → Call F T → Type 0
HasProper (receive m now_ns) = Unit
HasProper (poll now_ns) = Unit
HasProper (configure c now_ns) = IsProper c

module _ {F R T : Type 0} ⦃f : Float F⦄ ⦃g : Random F R⦄ where
  pub call : Call F T → FaultInjector F R T → Outcome F R T
  call (receive m now_ns) s = Injector.receive s m now_ns
  call (poll now_ns) s = Injector.poll s now_ns
  call (configure c now_ns) s = Injector.configure s c now_ns

  pub run_calls : List (Call F T) → FaultInjector F R T → FaultInjector F R T
  run_calls [] s = s
  run_calls (c ∷ cs) s = run_calls cs (call c s).1

  -- the number of calls of `receive` that did not raise
  unfoldable pub accepted : List (Call F T) → FaultInjector F R T → ℕ
  accepted [] s = 0
  accepted (c ∷ cs) s = taken (takes c) (call c s).0 + accepted cs (call c s).1

  -- the number of messages that the calls returned
  unfoldable pub returned : List (Call F T) → FaultInjector F R T → ℕ
  returned [] s = 0
  returned (c ∷ cs) s = sent (call c s).0 + returned cs (call c s).1

  call-Counts : (c : Call F T) (s : FaultInjector F R T) → Counts s (takes c) (call c s)
  unfolding call
  call-Counts (receive m now_ns) s = receive-Counts s m now_ns
  call-Counts (poll now_ns) s = poll-Counts s now_ns
  call-Counts (configure c now_ns) s = configure-Counts s c now_ns

  run_calls_count :
      (cs : List (Call F T)) (s : FaultInjector F R T)
      → ((run_calls cs s).received ≡ s.received + accepted cs s)
        × ((run_calls cs s).forwarded ≡ s.forwarded + returned cs s)
  unfolding run_calls accepted returned
  run_calls_count [] s = (omega arith, omega arith)
  run_calls_count (c ∷ cs) s =
      let one = call-Counts c s in
      let (taken_in, sent_out) = run_calls_count cs (call c s).1 in
      (omega (arith, one.received, taken_in), omega (arith, one.forwarded, sent_out))

  call-IsSound :
      (c : Call F T) (s : FaultInjector F R T) → HasProper c → IsSound s → IsSound (call c s).1
  unfolding call
  call-IsSound (receive m now_ns) s p h = receive-IsSound s m now_ns h
  call-IsSound (poll now_ns) s p h = poll-IsSound s now_ns h
  call-IsSound (configure c now_ns) s p h = configure-IsSound s c now_ns p h

  pub run_calls-IsSound :
      (cs : List (Call F T)) (s : FaultInjector F R T)
      → All HasProper cs
      → IsSound s
      → IsSound (run_calls cs s)
  unfolding run_calls
  run_calls-IsSound [] s p h = h
  run_calls-IsSound (c ∷ cs) s p h = run_calls-IsSound cs (call c s).1 p.1 (call-IsSound c s p.0 h)

module _ {F R T : Type 0} ⦃f : Float F⦄ ⦃g : Random F R⦄ where
  -- Of an injector made with a configuration that passed the checks of `FaultConfig`, after any
  -- sequence of `receive`, `poll` and `configure`, those that raise included: the calls of `receive`
  -- that returned are as many as the messages that the calls returned in all, the count of the dropped
  -- and the pending together; the counter of the received is the former number, and that of the
  -- forwarded is the number of the messages returned; no more than `max_pending` messages are
  -- pending, and none outside the latency mode. In the stale mode what is returned is the held
  -- sample, so this is a statement of numbers.
  pub run_calls-conserves :
      (c : FaultConfig F) (max_pending : Value F) (rng : Option R) {s : FaultInjector F R T}
      → IsProper c
      → Injector.init c max_pending rng ≡ ok s
      → (cs : List (Call F T)) → All HasProper cs
      → let s' = run_calls cs s in
        (accepted cs s ≡ returned cs s + s'.dropped + pending_count s')
        × (s'.received ≡ accepted cs s)
        × (s'.forwarded ≡ returned cs s)
        × (pending_count s' ≤ s'.max_pending)
        × ((latency_is_active s'.config ≡ true) ⊎ (pending_count s' ≡ 0))
  run_calls-conserves c max_pending rng {s} proper made cs ps =
      let start : IsSound s =
        subst (Ensures IsSound) made (init-IsSound T c max_pending rng proper) in
      let (none_in, none_out) =
        subst (Ensures IsUnused) made (init-IsUnused T c max_pending rng proper) in
      let (taken_in, sent_out) = run_calls_count cs s in
      let h = run_calls-IsSound cs s ps start in
      let w = h.wired in
      (
        omega (arith, h.conserved, none_in, none_out, taken_in, sent_out),
        omega (arith, none_in, taken_in),
        omega (arith, none_out, sent_out),
        (let fits = w.queue_valid.fits in let same = w.capacity in rw (← same) fits),
        (ground (arith, w.idle)),
      )
