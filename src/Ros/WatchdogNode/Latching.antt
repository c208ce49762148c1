-- ===== src/Ros/WatchdogNode/Latching.antt =====
-- Once the watchdog node has published a stop command, each of its checks publishes one.
use mathlib.Core.Path.{subst}
use ros2_resilience.Prelude.{
  ℕ, ℤ, some, ◌≡◌, ◌≢◌, refl, sym, ap, true, Bool-cases, inl, inr, List, [], ◌∷◌, All, arith,
}
use ros2_resilience.Python.Float.{Float}
use ros2_resilience.Python.Result.{
  ok_injective, Result, ok, raise, Ensures, state_after, bind_returned, ◌>>=◌,
}
use ros2_resilience.Python.Value.{Value, integer, validate_nonnegative_int}
use ros2_resilience.Health.Watchdog
use ros2_resilience.Health.Watchdog.{
  WatchdogStatus, WatchdogEvaluator, check_at, verdict, prune, judge, conclude, arrive,
}
use ros2_resilience.Ros.Messages.{Twist, Odometry, stop, stamp_ns}
use ros2_resilience.Ros.WatchdogNode
use ros2_resilience.Ros.WatchdogNode.{Output, status, command, recovery_published, report}

-- a call of a handler, at a reading of the node's clock
pub data Call (F : Type 0) : Type 0 where
  on_input : Odometry F → ℤ → Call F
  on_check : ℤ → Call F

abbrev pub commands : {F : Type 0} → List (Output F) → List (Twist F)
commands [] = []
commands (command t ∷ outs) = t ∷ commands outs
commands (status d ∷ outs) = commands outs
commands (recovery_published d ∷ outs) = commands outs

module _ {F : Type 0} ⦃f : Float F⦄ where
  -- what each check of a sequence of calls publishes or raises
  unfoldable pub checks : List (Call F) → WatchdogEvaluator F → List (Result (List (Output F)))
  unfolding WatchdogNode.on_input WatchdogNode.on_check
  checks [] w = []
  checks (on_input msg clock ∷ cs) w = checks cs (state_after w (WatchdogNode.on_input w msg clock))
  checks (on_check clock ∷ cs) w = let (r, w') = WatchdogNode.on_check w clock in r ∷ checks cs w'

  arrival_latched :
      (w : WatchdogEvaluator F) (now_ns stamp_ns : Value F)
      → w.latched ≡ true
      → (state_after w (Watchdog.record_arrival w now_ns (some stamp_ns))).latched ≡ true
  unfolding Watchdog.record_arrival
  arrival_latched w now_ns stamp_ns h = ground arith

  check_latched :
      (w : WatchdogEvaluator F) (time : Result ℕ)
      → w.latched ≡ true
      → Ensures (λ s. s.violated ≡ true) (check_at w time).0 × ((check_at w time).1.latched ≡ true)
  unfolding check_at
  check_latched w time h = ground arith

  check_latches :
      (w : WatchdogEvaluator F) (time : Result ℕ) (s : WatchdogStatus F)
      → (check_at w time).0 ≡ ok s
      → s.violated ≡ true
      → (check_at w time).1.latched ≡ true
  unfolding check_at
  check_latches w time s e h = ground arith

  reported :
      (r : Result (WatchdogStatus F))
      → Ensures (λ s. s.violated ≡ true) r
      → Ensures (λ outs. commands outs ≡ stop ∷ []) (r >>= λ s. ok (report s))
  unfolding report
  reported (ok s) h = rw h refl
  reported (raise e) h = tt

  checks-latched :
      (cs : List (Call F)) (w : WatchdogEvaluator F)
      → w.latched ≡ true
      → All (Ensures (λ outs. commands outs ≡ stop ∷ [])) (checks cs w)
  unfolding checks Watchdog.check
  checks-latched [] w h = tt
  checks-latched (on_input msg clock ∷ cs) w h =
      checks-latched cs _ (arrival_latched w (integer clock) (integer (stamp_ns msg.stamp)) h)
  checks-latched (on_check clock ∷ cs) w h =
      let (violated, next) = check_latched w (validate_nonnegative_int {F = F} (integer clock)) h in
      (
        reported (Watchdog.check w (integer clock)).0 violated,
        checks-latched cs (Watchdog.check w (integer clock)).1 next,
      )

  violated_if_published : (s : WatchdogStatus F) → commands (report s) ≢ [] → s.violated ≡ true
  unfolding report
  violated_if_published s h = elim (Bool-cases s.violated) [
    | inl violated ↦ violated
    | inr fine ↦ absurd (h (rw fine refl))
  ]

  -- Once a check of the node publishes a command, every later check that returns publishes the stop
  -- command, and no other, whatever messages and checks come in between, those that raise included.
  pub stop_repeats :
      (w w' : WatchdogEvaluator F) (clock : ℤ) (outs : List (Output F))
      → WatchdogNode.on_check w clock ≡ (ok outs, w')
      → commands outs ≢ []
      → (cs : List (Call F)) → All (Ensures (λ later. commands later ≡ stop ∷ [])) (checks cs w')
  unfolding WatchdogNode.on_check Watchdog.check
  stop_repeats w w' clock outs e h cs =
      let time = validate_nonnegative_int {F = F} (integer clock) in
      let (s, same, found) =
        bind_returned (λ s. ok (report s)) (check_at w time).0 (ap (λ p. p.0) e) in
      let violated =
        violated_if_published s (subst (λ os. commands os ≢ []) (sym (ok_injective same)) h) in
      let latched : w'.latched ≡ true =
        subst (λ v. v.latched ≡ true) (ap (λ p. p.1) e) (check_latches w time s found violated) in
      checks-latched cs w' latched
