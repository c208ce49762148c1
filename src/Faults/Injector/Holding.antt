-- ===== src/Faults/Injector/Holding.antt =====
-- The stale mode of faults/injector.py: which sample is held, and for how long.
use ros2_resilience.Prelude.{
  ℕ, ◌≡◌, refl, ap, ◌∙◌, Bool, true, false, not, ◌&&◌, some, List, [], ◌∷◌, leb, Bool-cases, inl,
  inr, All, pos, ◌==◌,
}
use ros2_resilience.Python.Float.{Float}
use ros2_resilience.Python.Result.{Result, ok, raise, Ensures}
use ros2_resilience.Python.Value.{Value, boolean, integer}
use ros2_resilience.Faults.Config.{
  FaultType, healthy, dropout, latency, stale, FaultConfig, stale_is_active, latency_is_active,
}
use ros2_resilience.Faults.Clock
use ros2_resilience.Faults.Dropout
use ros2_resilience.Faults.Latency
use ros2_resilience.Faults.Latency.{LatencyQueue}
use ros2_resilience.Faults.Random.{Random}
use ros2_resilience.Faults.Stale
use ros2_resilience.Faults.Stale.{next_held}
use ros2_resilience.Faults.Stale.Samples.{receive-enabled, receive-latest, receive-held}
use ros2_resilience.Faults.Injector.{
  FaultInjector, pending_count, finish, forward, drop_or_forward, receive_dropout, deliver,
  hold_and_deliver, receive_latency, dispatch, receive_at, receive, configure, configure_at,
  reconfigure, rebuild,
}
use ros2_resilience.Faults.Injector.Sound.{IsSound, receive-IsSound}
use ros2_resilience.Faults.Injector.Calls.{IsProper, rebuilt, rebuild-rebuilt}

module _ {F R T : Type 0} where
  -- in the stale mode, with the sample `m`
  pub record IsHolding (m : T) (s : FaultInjector F R T) : Type 0 where
    pub on : s.config.enabled ≡ true
    pub kind : s.config.fault_type ≡ stale
    pub enabled : s.hold.enabled ≡ true
    pub held : s.hold.held ≡ some m

module _ {F R T : Type 0} ⦃f : Float F⦄ ⦃g : Random F R⦄ where
  IsHolding-receive_at :
      (m : T) (s : FaultInjector F R T) (x : Result T) (time : Result ℕ)
      → IsHolding m s
      → Ensures (λ out. out ≡ m ∷ []) (receive_at s x time).0 × IsHolding m (receive_at s x time).1
  unfolding receive_at
  IsHolding-receive_at m s x (raise e) h = (tt, h)
  IsHolding-receive_at m s (raise e) (ok now) h =
      rw (h.on, h.kind) (tt, record { on = refl; kind = refl; enabled = h.enabled; held = h.held })
  IsHolding-receive_at m s (ok x) (ok now) h =
      let sample = receive-held s.hold x h.enabled h.held in
      rw (h.on, h.kind)
        (
          ap (λ t. t ∷ []) sample.1,
          record {
            on = refl;
            kind = refl;
            enabled = receive-enabled s.hold x ∙ h.enabled;
            held = sample.0;
          },
        )

  -- the sample that `receive` records as the latest
  latest-deliver :
      (s : FaultInjector F R T) (arrivals now : ℕ) (result : Result (List T × LatencyQueue T))
      → (deliver s arrivals now result).1.hold.latest ≡ s.hold.latest
  unfolding deliver finish
  latest-deliver s arrivals now (raise e) = refl
  latest-deliver s arrivals now (ok p) = refl

  latest-forward :
      (s : FaultInjector F R T) (m : T) (now : ℕ) → (forward s (ok m) now).1.hold.latest ≡ some m
  unfolding forward finish
  latest-forward s m now = receive-latest s.hold m

  latest-drop_or_forward :
      (s : FaultInjector F R T) (m : T) (now : ℕ) (answer : Result Bool) {out : List T}
      → (drop_or_forward s (ok m) now answer).0 ≡ ok out
      → (drop_or_forward s (ok m) now answer).1.hold.latest ≡ some m
  unfolding drop_or_forward finish
  latest-drop_or_forward s m now (raise e) h = cc
  latest-drop_or_forward s m now (ok true) h = receive-latest s.hold m
  latest-drop_or_forward s m now (ok false) h = latest-forward s m now

  latest-hold_and_deliver :
      (s : FaultInjector F R T) (m : T) (now : ℕ) (result : Result (LatencyQueue T)) {out : List T}
      → (hold_and_deliver s (ok m) now result).0 ≡ ok out
      → (hold_and_deliver s (ok m) now result).1.hold.latest ≡ some m
  unfolding hold_and_deliver
  latest-hold_and_deliver s m now (raise e) h = cc
  latest-hold_and_deliver s m now (ok q) h =
      let s' : FaultInjector F R T = record s { queue = q; hold = (Stale.take s.hold m).0 } in
      latest-deliver s' 1 now (Latency.pop_ready {F = F} q (integer (pos now)))
      ∙ receive-latest s.hold m

  latest-dispatch :
      (on : Bool) (kind : FaultType) (s : FaultInjector F R T) (m : T) (now : ℕ) {out : List T}
      → (dispatch on kind s (ok m) now).0 ≡ ok out
      → (dispatch on kind s (ok m) now).1.hold.latest ≡ some m
  unfolding dispatch receive_dropout receive_latency
  latest-dispatch false kind s m now h = latest-forward s m now
  latest-dispatch true healthy s m now h = latest-forward s m now
  latest-dispatch true dropout s m now h =
      let draw = Dropout.should_drop g.random s.dropper (boolean true) s.rng in
      latest-drop_or_forward (record s { rng = draw.1 }) m now draw.0 h
  latest-dispatch true latency s m now h =
      let queued = Latency.enqueue g.uniform s.queue (ok m) (integer (pos now)) s.rng in
      latest-hold_and_deliver (record s { rng = queued.1 }) m now queued.0 h
  latest-dispatch true stale s m now h = latest-forward s m now

  latest-receive_at :
      (s : FaultInjector F R T) (m : T) (time : Result ℕ) {out : List T}
      → (receive_at s (ok m) time).0 ≡ ok out
      → (receive_at s (ok m) time).1.hold.latest ≡ some m
  unfolding receive_at
  latest-receive_at s m (raise e) h = cc
  latest-receive_at s m (ok now) h =
      elim (Bool-cases (latency_is_active s.config && leb s.max_pending (pending_count s))) [
        | inl full ↦ cc (rw full at h)
        | inr room ↦ rw room (latest-dispatch _ _ s m now (rw room at h))
      ]

  IsHolding-rebuild :
      (m : T) (s : FaultInjector F R T) (c : FaultConfig F) (now : ℕ) (flushed : List T)
      → s.hold.enabled ≡ false
      → s.hold.latest ≡ some m
      → IsProper c
      → c.enabled ≡ true
      → c.fault_type ≡ stale
      → IsHolding m (rebuild s c now flushed).1
  unfolding finish rebuilt next_held
  IsHolding-rebuild m s c now flushed off seen proper on kind =
      rw (rebuild-rebuilt s c now flushed proper)
        (record { on = on; kind = kind; enabled = rw (on, kind); held = rw (on, kind, off, seen) })

  -- entering the stale mode holds the latest sample
  IsHolding-configure_at :
      (m : T) (s : FaultInjector F R T) (c : FaultConfig F) (time : Result ℕ) {out : List T}
      → s.hold.enabled ≡ false
      → s.hold.latest ≡ some m
      → IsProper c
      → c.enabled ≡ true
      → c.fault_type ≡ stale
      → (configure_at s c time).0 ≡ ok out
      → IsHolding m (configure_at s c time).1
  unfolding configure_at reconfigure
  IsHolding-configure_at m s c (raise e) off seen proper on kind h = cc
  IsHolding-configure_at m s c (ok now) off seen proper on kind h =
      elim (Bool-cases (s.external_rng && not (c.seed == s.config.seed))) [
        | inl refused ↦ cc (rw refused at h)
        | inr allowed ↦
            elim (Bool-cases (latency_is_active s.config && not (latency_is_active c))) [
              | inl leaves ↦
                  rw (allowed, leaves) (IsHolding-rebuild m _ c now _ off seen proper on kind)
              | inr stays ↦
                  rw (allowed, stays) (IsHolding-rebuild m _ c now [] off seen proper on kind)
            ]
      ]

  -- the outcomes of a sequence of `receive`
  pub receive_all : List (Result T × Value F) → FaultInjector F R T → List (Result (List T))
  receive_all [] s = []
  receive_all ((x, now_ns) ∷ rest) s =
      let (result, s') = receive s x now_ns in result ∷ receive_all rest s'

  receive_all-holding :
      (m : T) (xs : List (Result T × Value F)) (s : FaultInjector F R T)
      → IsHolding m s
      → All (Ensures (λ out. out ≡ m ∷ [])) (receive_all xs s)
  unfolding receive_all receive
  receive_all-holding m [] s h = tt
  receive_all-holding m ((x, now_ns) ∷ rest) s h =
      let (sent, next) = IsHolding-receive_at m s x (Clock.validate_time s.last_time_ns now_ns) h in
      (sent, receive_all-holding m rest (receive s x now_ns).1 next)

  -- A sound injector that is not in the stale mode takes a message `m`, which can be copied, without raising, in any mode,
  -- and is then put in the stale mode. From then on every `receive` that does not raise sends `m`
  -- alone, whatever it is given: the sample held is the one received last, even if it was dropped or
  -- delayed, and it is never replaced.
  pub stale_sends_latest :
      (s s1 s2 : FaultInjector F R T) (m : T) (c : FaultConfig F) (t1 t2 : Value F)
      {out flushed : List T}
      → IsSound s
      → stale_is_active s1.config ≡ false
      → receive s (ok m) t1 ≡ (ok out, s1)
      → IsProper c
      → c.enabled ≡ true
      → c.fault_type ≡ stale
      → configure s1 c t2 ≡ (ok flushed, s2)
      → (xs : List (Result T × Value F)) → All (Ensures (λ sent. sent ≡ m ∷ [])) (receive_all xs s2)
  unfolding receive configure
  stale_sends_latest s s1 s2 m c t1 t2 h off taken proper on kind put xs =
      let sound : IsSound s1 = rw (ap (λ p. p.1) taken) at (receive-IsSound s (ok m) t1 h) in
      let seen : s1.hold.latest ≡ some m =
        rw (ap (λ p. p.1) taken) at
          (latest-receive_at s m (Clock.validate_time s.last_time_ns t1) (ap (λ p. p.0) taken)) in
      let holds : IsHolding m s2 = rw (ap (λ p. p.1) put) at (
        IsHolding-configure_at m s1 c (Clock.validate_time s1.last_time_ns t2)
          (sound.wired.hold_mode ∙ off) seen proper on kind (ap (λ p. p.0) put)) in
      receive_all-holding m xs s2 holds
