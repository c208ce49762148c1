-- ===== src/Tests/Monitor.antt =====
-- A watchdog that sees an arrival, then silence: health/watchdog.py.
use ros2_resilience.Prelude.{pos, ◌≡◌, refl, arith, List, [], ◌∷◌, some, none, All, true, false}
use ros2_resilience.Python.Result.{ok, Ensures}
use ros2_resilience.Python.Value.{integer, text}
use ros2_resilience.Health.Watchdog
use ros2_resilience.Health.Watchdog.{WatchdogEvaluator, WatchdogStatus, message_age_exceeded}
use ros2_resilience.Health.Watchdog.Latching
use ros2_resilience.Health.Watchdog.Latching.{Reports, violation_stays}
use ros2_resilience.Health.Watchdog.History
use ros2_resilience.Health.Watchdog.History.{statuses-ideal}
use ros2_resilience.Tests.Numbers.{Fixed, finite, Fixed-Float}

abbrev pub watchdog : WatchdogEvaluator Fixed
watchdog = record {
  max_age_ns = pos 500_000_000;
  expected_rate_hz = finite (pos 10_000_000_000);
  loss_window_ns = pos 1_000_000_000;
  max_loss_fraction = finite (pos 500_000_000);
  arrivals = 1_000_000_000 ∷ [];
  first_arrival_ns = some 1_000_000_000;
  last_arrival_ns = some 1_000_000_000;
  latest_stamp_ns = some 900_000_000;
  latched = false;
  latched_reason = none;
}

abbrev pub late : WatchdogEvaluator Fixed
late = record watchdog { latched = true; latched_reason = some message_age_exceeded }

abbrev violation : WatchdogStatus Fixed
violation = record {
  violated = true;
  reason = some message_age_exceeded;
  age_sec = some (finite (pos 700_000_000));
  loss_fraction = some (finite (pos 833_333_334));
}

violation_lem : Watchdog.check watchdog (integer (pos 1_600_000_000)) ≡ (ok violation, late)
unfolding Watchdog.check Fixed-Float
violation_lem = refl

violation_stays_example : All (Ensures (Reports message_age_exceeded)) (
    Latching.statuses
      (Latching.Call.check (integer (pos 1_700_000_000))
        ∷ Latching.Call.record_arrival
            (integer (pos 1_800_000_000))
            (some (integer (pos 1_790_000_000)))
        ∷ Latching.Call.check (text "now")
        ∷ Latching.Call.check (integer (pos 1_810_000_000))
        ∷ [])
      late)
violation_stays_example =
    violation_stays watchdog late (integer (pos 1_600_000_000)) violation message_age_exceeded
      violation_lem (refl, refl) _

abbrev calls : List (History.Call Fixed)
calls =
    History.Call.check 1_100_000_000
    ∷ History.Call.record_arrival (integer (pos 1_200_000_000)) none
    ∷ History.Call.check 1_300_000_000
    ∷ History.Call.check 2_500_000_000
    ∷ []

statuses-ideal_example : History.statuses calls watchdog ≡ History.ideal_statuses calls watchdog
statuses-ideal_example =
    statuses-ideal calls watchdog (omega arith, (omega arith, (omega arith, tt)))
