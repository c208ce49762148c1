-- ===== src/Health/Watchdog/Latching.antt =====
-- A violation of health/watchdog.py is latched: it is reported with its first reason until a reset.
use ros2_resilience.Prelude.{ℕ, ◌≡◌, ap, true, Option, some, List, [], ◌∷◌, All, arith}
use ros2_resilience.Python.Float.{Float}
use ros2_resilience.Python.Result.{Result, ok, raise, Ensures}
use ros2_resilience.Python.Value.{Value, validate_nonnegative_int}
use ros2_resilience.Health.Watchdog
use ros2_resilience.Health.Watchdog.{
  ViolationReason, WatchdogStatus, WatchdogEvaluator, check_at, verdict, prune, judge, status,
}

pub data Call (F : Type 0) : Type 0 where
  record_arrival : Value F → Option (Value F) → Call F
  check : Value F → Call F

-- latched with this reason
pub record IsLatched {F : Type 0} (reason : ViolationReason) (w : WatchdogEvaluator F)
    : Type 0 where
  pub latched : w.latched ≡ true
  pub latched_reason : w.latched_reason ≡ some reason

module _ {F : Type 0} ⦃f : Float F⦄ where
  abbrev kept : WatchdogEvaluator F → Result (WatchdogEvaluator F) → WatchdogEvaluator F
  kept w (ok w') = w'
  kept w (raise e) = w

  -- the statuses that a sequence of calls reports
  unfoldable pub statuses : List (Call F) → WatchdogEvaluator F → List (Result (WatchdogStatus F))
  statuses [] w = []
  statuses (record_arrival now_ns stamp_ns ∷ cs) w =
      statuses cs (kept w (Watchdog.record_arrival w now_ns stamp_ns))
  statuses (check now_ns ∷ cs) w = let (s, w') = Watchdog.check w now_ns in s ∷ statuses cs w'

  abbrev pub Reports : ViolationReason → WatchdogStatus F → Type 0
  Reports reason s = (s.violated ≡ true) × (s.reason ≡ some reason)

  IsLatched-record_arrival :
      (reason : ViolationReason) (w : WatchdogEvaluator F) (now_ns : Value F)
      (stamp_ns : Option (Value F))
      → IsLatched reason w
      → IsLatched reason (kept w (Watchdog.record_arrival w now_ns stamp_ns))
  unfolding Watchdog.record_arrival
  IsLatched-record_arrival reason w now_ns stamp_ns h = ground arith

  IsLatched-check_at :
      (reason : ViolationReason) (w : WatchdogEvaluator F) (time : Result ℕ)
      → IsLatched reason w
      → Ensures (Reports reason) (check_at w time).0 × IsLatched reason (check_at w time).1
  unfolding check_at
  IsLatched-check_at reason w time h = ground arith

  statuses-Reports :
      (reason : ViolationReason) (cs : List (Call F)) (w : WatchdogEvaluator F)
      → IsLatched reason w
      → All (Ensures (Reports reason)) (statuses cs w)
  unfolding statuses Watchdog.check
  statuses-Reports reason [] w h = tt
  statuses-Reports reason (record_arrival now_ns stamp_ns ∷ cs) w h =
      statuses-Reports reason cs _ (IsLatched-record_arrival reason w now_ns stamp_ns h)
  statuses-Reports reason (check now_ns ∷ cs) w h =
      let (reported, next) = IsLatched-check_at reason w (validate_nonnegative_int now_ns) h in
      (reported, statuses-Reports reason cs (Watchdog.check w now_ns).1 next)

  check_at-IsLatched :
      (w : WatchdogEvaluator F) (time : Result ℕ) (s : WatchdogStatus F) (reason : ViolationReason)
      → (check_at w time).0 ≡ ok s
      → Reports reason s
      → IsLatched reason (check_at w time).1
  unfolding check_at
  check_at-IsLatched w time s reason e h = ground arith

  -- Once a check reports a violation with a reason, every later check that returns reports a
  -- violation for the same reason, whatever arrivals and checks come in between, those that raise
  -- included, as long as there is no reset.
  pub violation_stays :
      (w w' : WatchdogEvaluator F) (now_ns : Value F) (s : WatchdogStatus F)
      (reason : ViolationReason)
      → Watchdog.check w now_ns ≡ (ok s, w')
      → Reports reason s
      → (cs : List (Call F)) → All (Ensures (Reports reason)) (statuses cs w')
  unfolding Watchdog.check
  violation_stays w w' now_ns s reason e h cs =
      let time = validate_nonnegative_int now_ns in
      let latched : IsLatched reason w' =
        rw (ap (λ p. p.1) e) at (check_at-IsLatched w time s reason (ap (λ p. p.0) e) h) in
      statuses-Reports reason cs w' latched
