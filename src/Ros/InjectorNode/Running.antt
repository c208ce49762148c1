-- ===== src/Ros/InjectorNode/Running.antt =====
-- Sequences of the handlers' calls: which exceptions they raise, and what they publish.
use mathlib.Core.Path.{subst}
use ros2_resilience.Prelude.{
  ℕ, ◌+◌, ◌≤◌, ◌<◌, ◌⊎◌, ◌≡◌, refl, inl, inr, true, false, not, ◌&&◌, Option, none, some, List, [],
  ◌∷◌, ◌++◌, arith, Bool-cases, length, All, map, pos, leb, ltb, if◌then◌else◌,
}
use ros2_resilience.Python.Float.{Float, IsFloat}
use ros2_resilience.Python.Result.{Result, ok, raise, queue_overflow, Ensures, bind_returned}
use ros2_resilience.Python.Value.{integer, validate_positive_int}
use ros2_resilience.Faults.Clock.{IsReached, IsReached-of_behind, validate_time-reached}
use ros2_resilience.Faults.Config.{FaultConfig, latency_is_active}
use ros2_resilience.Faults.Latency
use ros2_resilience.Faults.Latency.Valid.{pop_ready-reached}
use ros2_resilience.Faults.Injector
use ros2_resilience.Faults.Injector.{
  FaultInjector, Outcome, assemble, pending_count, finish, deliver,
}
use ros2_resilience.Faults.Injector.Sound.{IsSound, receive-IsSound}
use ros2_resilience.Faults.Injector.Calls.{
  IsProper, init-IsSound, poll-IsSound, configure-IsSound, rebuild-rebuilt, reseeded,
}
use ros2_resilience.Faults.Injector.Keeping.{Keeps, receive-Keeps, poll-Keeps, configure-Keeps}
use ros2_resilience.Faults.Injector.Raising.{receive_returns, receive_uncopied}
use ros2_resilience.Faults.Injector.Counting.{
  Counts, taken, receive-Counts, poll-Counts, configure-Counts,
}
use ros2_resilience.Faults.Random.{Random, IsRandom}
use ros2_resilience.Ros.InjectorNode
use ros2_resilience.Ros.InjectorNode.{
  default_config, Output, odometry, config_applied, counted, FaultInjectorNode, Handled, now_ns,
  applied, forwarded, polled,
}

-- a call of a handler, with the reading of the clock that it takes
pub data Call (F T : Type 0) : Type 0 where
  on_input : Result T → ℕ → Call F T
  on_poll : ℕ → Call F T
  apply_config : FaultConfig F → ℕ → ℕ → Call F T

-- the inputs that a call takes, if it does not raise
abbrev pub takes : {F T : Type 0} → Call F T → ℕ
takes (on_input m clock) = 1
takes (on_poll clock) = 0
takes (apply_config c revision clock) = 0

-- A configuration that is applied has been through the checks of `FaultConfig`.
abbrev pub HasProper : {F T : Type 0} ⦃f : Float F⦄ → Call F T → Type 0
HasProper (on_input m clock) = Unit
HasProper (on_poll clock) = Unit
HasProper (apply_config c revision clock) = IsProper c

-- the number of odometry messages among the outputs
abbrev pub messages : {T : Type 0} → List (Output T) → ℕ
messages [] = 0
messages (odometry m ∷ outs) = 1 + messages outs
messages (config_applied n ∷ outs) = messages outs
messages (counted c ∷ outs) = messages outs

abbrev pub published : {T : Type 0} → List (Result (List (Output T))) → ℕ
published [] = 0
published (raise e ∷ rs) = published rs
published (ok outs ∷ rs) = messages outs + published rs

messages-odometry :
    {T : Type 0} (ms : List T) (rest : List (Output T))
    → messages (map odometry ms ++ rest) ≡ length ms + messages rest
messages-odometry [] rest = omega arith
messages-odometry (m ∷ ms) rest = omega (arith, messages-odometry ms rest)

published-cons :
    {T : Type 0} (r : Result (List (Output T))) (rs : List (Result (List (Output T))))
    → published (r ∷ rs) ≡ published (r ∷ []) + published rs
published-cons (raise e) rs = omega arith
published-cons (ok outs) rs = omega arith

messages-only : {T : Type 0} (ms : List T) → messages (map odometry ms) ≡ length ms
messages-only [] = omega arith
messages-only (m ∷ ms) = omega (arith, messages-only ms)

later :
    (last : Option ℕ) (clock now : ℕ)
    → IsReached last now
    → IsReached last (if ltb clock now then now else clock)
later none clock now h = tt
later (some l) clock now h = ground arith

abbrev Returns : {A : Type 0} → Result A → Type 0
Returns (ok a) = Unit
Returns (raise e) = ⊥

module _ (F R T : Type 0) ⦃f : Float F⦄ ⦃g : Random F R⦄ where
  init_state :
      IsProper (default_config {F = F})
      → Ensures
          (λ (s : FaultInjector F R T).
            (s.external_rng ≡ false)
            × (s.last_time_ns ≡ none)
            × (s.forwarded ≡ 0)
            × (s.received ≡ 0))
          (Injector.init default_config (integer (pos 1000)) none)
  unfolding Injector.init assemble validate_positive_int
  init_state proper = rw proper (refl, refl, refl, refl)

module _ {F R T : Type 0} ⦃f : Float F⦄ ⦃g : Random F R⦄ where
  unfoldable pub handle : Call F T → FaultInjectorNode F R T → Handled F R T
  unfolding InjectorNode.on_input InjectorNode.on_poll InjectorNode.apply_config
  handle (on_input m clock) n = InjectorNode.on_input n m clock
  handle (on_poll clock) n = InjectorNode.on_poll n clock
  handle (apply_config c revision clock) n = InjectorNode.apply_config n c revision clock

  -- what each handler gave, and the node at the end
  unfoldable pub run :
      List (Call F T)
      → FaultInjectorNode F R T
      → List (Result (List (Output T))) × FaultInjectorNode F R T
  unfolding handle
  run [] n = ([], n)
  run (c ∷ cs) n = let (r, n') = handle c n in let (rs, end) = run cs n' in (r ∷ rs, end)

  -- it returned, or the latency queue was full for an input, or the input could not be copied
  abbrev pub IsCalm : {A : Type 0} → Call F T → FaultInjectorNode F R T → Result A → Type 0
  IsCalm c n (ok a) = Unit
  IsCalm (on_input m clock) n (raise e) =
      ((e ≡ queue_overflow)
        × (latency_is_active n.injector.config ≡ true)
        × (n.injector.max_pending ≤ pending_count n.injector))
      ⊎ (m ≡ raise e)
  IsCalm (on_poll clock) n (raise e) = ⊥
  IsCalm (apply_config c revision clock) n (raise e) = ⊥

  abbrev pub AreCalm : List (Call F T) → FaultInjectorNode F R T → Type 0
  AreCalm [] n = Unit
  AreCalm (c ∷ cs) n = IsCalm c n (handle c n).0 × AreCalm cs (handle c n).1

  -- the number of inputs that did not raise
  unfoldable pub accepted : List (Call F T) → FaultInjectorNode F R T → ℕ
  accepted [] n = 0
  accepted (c ∷ cs) n = taken (takes c) (handle c n).0 + accepted cs (handle c n).1

  pub record IsRunning (n : FaultInjectorNode F R T) : Type 0 where
    pub sound : IsSound n.injector
    pub clock : IsReached n.injector.last_time_ns n.last_ns
    pub owner : n.injector.external_rng ≡ false

  -- a handler that leaves the node running, and counts what it publishes
  record IsFine (c : Call F T) (n : FaultInjectorNode F R T) (h : Handled F R T) : Type 0 where
    running : IsRunning h.1
    calm : IsCalm c n h.0
    counted : h.1.injector.forwarded ≡ n.injector.forwarded + published (h.0 ∷ [])
    received : h.1.injector.received ≡ n.injector.received + taken (takes c) h.0

  forwarded-IsFine :
      (m : Result T) (clock : ℕ) (n : FaultInjectorNode F R T) (o : Outcome F R T)
      → n.injector.external_rng ≡ false
      → Keeps n.injector n.last_ns o
      → Counts n.injector (takes {F = F} (on_input m clock)) o
      → IsSound o.1
      → IsCalm (on_input m clock) n o.0
      → IsFine (on_input m clock) n (forwarded n o)
  unfolding forwarded
  forwarded-IsFine m clock n (raise e, s) own k count sound calm = record {
    running = record { sound = sound; clock = k.clock; owner = ground (arith, k.owner) };
    calm = calm;
    received = count.received;
    counted = omega (arith, count.forwarded);
  }
  forwarded-IsFine m clock n (ok outs, s) own k count sound calm = record {
    running = record { sound = sound; clock = k.clock; owner = ground (arith, k.owner) };
    calm = tt;
    received = count.received;
    counted = omega (arith, count.forwarded, messages-odometry outs);
  }

  polled-IsFine :
      (clock : ℕ) (n : FaultInjectorNode F R T) (o : Outcome F R T)
      → n.injector.external_rng ≡ false
      → Keeps n.injector n.last_ns o
      → Counts n.injector (takes {F = F} {T = T} (on_poll clock)) o
      → IsSound o.1
      → IsCalm (on_poll clock) n o.0
      → IsFine (on_poll clock) n (polled n o)
  unfolding polled
  polled-IsFine clock n (raise e, s) own k count sound calm = record {
    running = record { sound = sound; clock = k.clock; owner = ground (arith, k.owner) };
    calm = calm;
    received = count.received;
    counted = omega (arith, count.forwarded);
  }
  polled-IsFine clock n (ok outs, s) own k count sound calm = record {
    running = record { sound = sound; clock = k.clock; owner = ground (arith, k.owner) };
    calm = tt;
    received = count.received;
    counted = omega (arith, count.forwarded, messages-only outs);
  }

  applied-IsFine :
      (c : FaultConfig F) (clock : ℕ) (n : FaultInjectorNode F R T) (revision : ℕ)
      (o : Outcome F R T)
      → n.injector.external_rng ≡ false
      → Keeps n.injector n.last_ns o
      → Counts n.injector (takes {T = T} (apply_config c revision clock)) o
      → IsSound o.1
      → IsCalm (apply_config c revision clock) n o.0
      → IsFine (apply_config c revision clock) n (applied n revision o)
  unfolding applied
  applied-IsFine c clock n revision (raise e, s) own k count sound calm = record {
    running = record { sound = sound; clock = k.clock; owner = ground (arith, k.owner) };
    calm = calm;
    received = count.received;
    counted = omega (arith, count.forwarded);
  }
  applied-IsFine c clock n revision (ok outs, s) own k count sound calm = record {
    running = record { sound = sound; clock = k.clock; owner = ground (arith, k.owner) };
    calm = tt;
    received = count.received;
    counted = omega (arith, count.forwarded, messages-odometry outs);
  }

  poll-Returns :
      (s : FaultInjector F R T) (now : ℕ)
      → IsSound s
      → IsReached s.last_time_ns now
      → Returns (Injector.poll s (integer (pos now))).0
  unfolding Injector.poll finish deliver
  poll-Returns s now h reached =
      let queued = IsReached-of_behind s.queue.last_time_ns s.last_time_ns now h.clock reached in
      rw (validate_time-reached F s.last_time_ns now reached)
        (elim (Bool-cases (latency_is_active s.config)) [
          | inl on ↦ rw (on, pop_ready-reached F s.queue now queued) tt
          | inr off ↦ rw off tt
        ])

  configure-Returns :
      (s : FaultInjector F R T) (c : FaultConfig F) (now : ℕ)
      → IsProper c
      → s.external_rng ≡ false
      → IsReached s.last_time_ns now
      → Returns (Injector.configure s c (integer (pos now))).0
  unfolding Injector.configure reseeded finish
  configure-Returns s c now proper own reached =
      rw (validate_time-reached F s.last_time_ns now reached, own)
        (elim (Bool-cases (latency_is_active s.config && not (latency_is_active c))) [
          | inl leaves ↦ rw (leaves, rebuild-rebuilt _ c now (Latency.flush s.queue).0 proper) tt
          | inr stays ↦ rw (stays, rebuild-rebuilt _ c now [] proper) tt
        ])

  -- a call that returned is calm
  no_raise :
      {A : Type 0} (c : Call F T) (n : FaultInjectorNode F R T) (r : Result A)
      → Returns r
      → IsCalm c n r
  no_raise c n (ok a) h = tt
  no_raise c n (raise e) h = elim h [ ]

  -- just made
  abbrev IsNew : FaultInjectorNode F R T → Type 0
  IsNew n = IsRunning n × (n.injector.forwarded ≡ 0) × (n.injector.received ≡ 0)

  init-IsRunning :
      (clock : ℕ) {n : FaultInjectorNode F R T}
      → IsProper (default_config {F = F})
      → InjectorNode.init T clock ≡ ok n
      → IsNew n
  unfolding InjectorNode.init
  init-IsRunning clock {n} proper made =
      let (s, same, made') =
        bind_returned (λ s. ok (record { injector = s; revision = 0; last_ns = clock }))
          (Injector.init {T = T} default_config (integer (pos 1000)) none) made in
      let (own, fresh, zero, unused) = subst (Ensures _) made' (init_state F R T proper) in
      let sound =
        subst (Ensures IsSound) made'
          (init-IsSound T default_config (integer (pos 1000)) none proper) in
      subst (Ensures IsNew) same
        (record { sound = sound; clock = rw fresh tt; owner = own }, zero, unused)

  module _ (fair : IsRandom F R) (floats : IsFloat F) where
    receive-IsCalm :
        (m : Result T) (clock : ℕ) (n : FaultInjectorNode F R T) (now : ℕ)
        → IsSound n.injector
        → IsReached n.injector.last_time_ns now
        → IsCalm (on_input m clock) n (Injector.receive n.injector m (integer (pos now))).0
    unfolding Injector.receive
    receive-IsCalm m clock n now h reached =
        let s = n.injector in
        elim (Bool-cases (latency_is_active s.config && leb s.max_pending (pending_count s))) [
          | inl full ↦
              rw (validate_time-reached F s.last_time_ns now reached, full)
                (inl (refl, ground arith, ground arith))
          | inr room ↦ room_IsCalm m clock n now h reached (ground arith)
        ]
      where
        room_IsCalm :
            (m : Result T) (clock : ℕ) (n : FaultInjectorNode F R T) (now : ℕ)
            → IsSound n.injector
            → IsReached n.injector.last_time_ns now
            → (latency_is_active n.injector.config ≡ false)
              ⊎ (pending_count n.injector < n.injector.max_pending)
            → IsCalm (on_input m clock) n (Injector.receive n.injector m (integer (pos now))).0
        room_IsCalm (ok m) clock n now h reached room =
            let (out, same) = receive_returns fair floats n.injector m now h reached room in
            rw same tt
        room_IsCalm (raise e) clock n now h reached room =
            rw (receive_uncopied fair floats n.injector e now h reached room) (inr refl)

    handle-IsFine :
        (c : Call F T) (n : FaultInjectorNode F R T)
        → HasProper c
        → IsRunning n
        → IsFine c n (handle c n)
    unfolding handle
    handle-IsFine (on_input m clock) n p h =
        let n' = now_ns n clock in
        let reached = later n.injector.last_time_ns clock n.last_ns h.clock in
        let fine =
          forwarded-IsFine m clock n' (Injector.receive n.injector m (integer (pos n'.last_ns)))
            h.owner (receive-Keeps n.injector m n'.last_ns reached)
            (receive-Counts n.injector m (integer (pos n'.last_ns)))
            (receive-IsSound n.injector m (integer (pos n'.last_ns)) h.sound)
            (receive-IsCalm m clock n' n'.last_ns h.sound reached) in
        record {
          running = fine.running;
          calm = of_now m clock n _ fine.calm;
          counted = fine.counted;
          received = fine.received;
        }
      where
        of_now :
            {A : Type 0} (m : Result T) (clock : ℕ) (n : FaultInjectorNode F R T) (r : Result A)
            → IsCalm (on_input m clock) (now_ns n clock) r
            → IsCalm (on_input m clock) n r
        of_now m clock n (ok a) h = tt
        of_now m clock n (raise e) h = h
    handle-IsFine (on_poll clock) n p h =
        let n' = now_ns n clock in
        let reached = later n.injector.last_time_ns clock n.last_ns h.clock in
        let fine =
          polled-IsFine clock n' (Injector.poll n.injector (integer (pos n'.last_ns))) h.owner
            (poll-Keeps n.injector n'.last_ns reached)
            (poll-Counts n.injector (integer (pos n'.last_ns)))
            (poll-IsSound n.injector (integer (pos n'.last_ns)) h.sound)
            (no_raise (on_poll clock) n' _ (poll-Returns n.injector n'.last_ns h.sound reached)) in
        record {
          running = fine.running;
          calm = fine.calm;
          counted = fine.counted;
          received = fine.received;
        }
    handle-IsFine (apply_config c revision clock) n p h =
        let n' = now_ns n clock in
        let reached = later n.injector.last_time_ns clock n.last_ns h.clock in
        let fine =
          applied-IsFine c clock n' revision
            (Injector.configure n.injector c (integer (pos n'.last_ns))) h.owner
            (configure-Keeps n.injector c n'.last_ns reached)
            (configure-Counts n.injector c (integer (pos n'.last_ns)))
            (configure-IsSound n.injector c (integer (pos n'.last_ns)) p h.sound)
            (no_raise (apply_config c revision clock) n' _
              (configure-Returns n.injector c n'.last_ns p h.owner reached)) in
        record {
          running = fine.running;
          calm = fine.calm;
          counted = fine.counted;
          received = fine.received;
        }

    pub run-IsRunning :
        (cs : List (Call F T)) (n : FaultInjectorNode F R T)
        → All HasProper cs
        → IsRunning n
        → let (rs, end) = run cs n in
          IsRunning end
          × AreCalm cs n
          × (end.injector.forwarded ≡ n.injector.forwarded + published rs)
          × (end.injector.received ≡ n.injector.received + accepted cs n)
    unfolding run accepted
    run-IsRunning [] n p h = (h, tt, omega arith, omega arith)
    run-IsRunning (c ∷ cs) n p h =
        let fine = handle-IsFine c n p.0 h in
        let (running, calm, count, taken_in) = run-IsRunning cs (handle c n).1 p.1 fine.running in
        (
          running,
          (fine.calm, calm),
          omega
              (arith, count, fine.counted, published-cons (handle c n).0 (run cs (handle c n).1).0),
          omega (arith, taken_in, fine.received),
        )

    -- Of the node after `__init__`, after any sequence of its handlers' calls and whatever the
    -- readings of the clock, those that go back included: no handler raises, save that `_on_input`
    -- raises `QueueOverflowError` when it finds the latency mode on and the queue full, or what the
    -- copy of its message raises; and the inputs that did not raise are as many as the messages that
    -- the node has published, those counted as dropped and those pending. The configurations that are
    -- applied have passed the checks of `FaultConfig`, which `FaultConfig()` passes too.
    pub run-conserves :
        (clock : ℕ) {n : FaultInjectorNode F R T}
        → IsProper (default_config {F = F})
        → InjectorNode.init T clock ≡ ok n
        → (cs : List (Call F T)) → All HasProper cs
        → let (rs, end) = run cs n in
          AreCalm cs n
          × (accepted cs n ≡ published rs + end.injector.dropped + pending_count end.injector)
    run-conserves clock {n} proper made cs ps =
        let (start, empty, unused) = init-IsRunning clock proper made in
        let (running, calm, count, taken_in) = run-IsRunning cs n ps start in
        (calm, omega (arith, running.sound.conserved, count, empty, unused, taken_in))
