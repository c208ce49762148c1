-- ===== src/Tests/Injector.antt =====
-- Injectors in the healthy, latency and dropout modes: faults/injector.py and faults/dropout.py.
use ros2_resilience.Prelude.{
  ℕ, pos, ◌+◌, ◌≤◌, ◌≡◌, refl, ◌⊎◌, inl, inr, arith, List, [], ◌∷◌, map, some, none, true, false,
  not, ◌&&◌, ◌||◌, All, if◌then◌else◌,
}
use ros2_resilience.Python.Float.{Float, nought, one}
use ros2_resilience.Python.Result.{ok, raise, type_error, Ensures}
use ros2_resilience.Python.Value.{integer, text, boolean, floating, in_unit_range}
use ros2_resilience.Faults.Clock
use ros2_resilience.Faults.Random.{Random}
use ros2_resilience.Faults.Config.{
  FaultConfig, FaultType, healthy, dropout, latency, stale, latency_is_active,
}
use ros2_resilience.Faults.Dropout.{Dropout, should_drop}
use ros2_resilience.Faults.Dropout.Decision.{should_drop_decides, is_determined}
use ros2_resilience.Faults.Latency.Arrivals.{message_of, pending}
use ros2_resilience.Faults.Injector
use ros2_resilience.Faults.Injector.{FaultInjector, pending_count}
use ros2_resilience.Faults.Injector.Sound.{IsSound}
use ros2_resilience.Faults.Injector.Calls
use ros2_resilience.Faults.Injector.Calls.{accepted, returned, IsProper, run_calls-conserves}
use ros2_resilience.Faults.Injector.Holding.{receive_all, stale_sends_latest}
use ros2_resilience.Faults.Injector.Raising.{configure_flushes, receive_returns}
use ros2_resilience.Tests.Numbers.{Fixed, finite, Fixed-Float, Fixed-IsFloat, ℕ-Random, ℕ-IsRandom}
use ros2_resilience.Tests.Queue.{queue, queue-IsValid}

abbrev config : FaultType → FaultConfig Fixed
config kind = record {
  enabled = true;
  fault_type = kind;
  drop_probability = finite (pos 250_000_000);
  delay_ns = 5;
  jitter_ns = 2;
  seed = 9;
}

-- the injector of `FaultInjector(config(healthy), 3)`
abbrev made : FaultInjector Fixed ℕ ℕ
made = record {
  config = config healthy;
  max_pending = 3;
  external_rng = false;
  rng = 9;
  dropper = record { probability = finite (pos 250_000_000) };
  queue = record {
    delay_ns = 5;
    jitter_ns = 2;
    max_pending = 3;
    entries = [];
    last_time_ns = none;
    next_sequence = 0;
  };
  hold = record { enabled = false; latest = none; held = none };
  last_time_ns = none;
  received = 0;
  forwarded = 0;
  dropped = 0;
}

-- in the latency mode, with two messages pending
abbrev busy : FaultInjector Fixed ℕ ℕ
busy = record made {
  config = config latency;
  queue = queue;
  last_time_ns = some 4;
  received = 3;
  forwarded = 1;
}

config-IsProper : (kind : FaultType) → IsProper (config kind)
unfolding in_unit_range Fixed-Float
config-IsProper kind = refl

made_lem : Injector.init (config healthy) (integer (pos 3)) none ≡ ok made
unfolding Injector.init Fixed-Float ℕ-Random in_unit_range
made_lem = refl

abbrev calls : List (Calls.Call Fixed ℕ)
calls =
    Calls.Call.receive (ok 10) (integer (pos 1))
    ∷ Calls.Call.configure (config latency) (integer (pos 2))
    ∷ Calls.Call.receive (ok 20) (integer (pos 3))
    ∷ Calls.Call.receive (raise type_error) (integer (pos 4))
    ∷ Calls.Call.receive (ok 30) (text "late")
    ∷ Calls.Call.poll (integer (pos 8))
    ∷ Calls.Call.configure (config dropout) (integer (pos 9))
    ∷ Calls.Call.receive (ok 40) (integer (pos 9))
    ∷ []

run_calls-conserves_example :
    let s' : FaultInjector Fixed ℕ ℕ = Calls.run_calls calls made in
    (accepted calls made ≡ returned calls made + s'.dropped + pending_count s')
    × (s'.received ≡ accepted calls made)
    × (s'.forwarded ≡ returned calls made)
    × (pending_count s' ≤ s'.max_pending)
    × ((latency_is_active s'.config ≡ true) ⊎ (pending_count s' ≡ 0))
run_calls-conserves_example =
    run_calls-conserves (config healthy) (integer (pos 3)) none (config-IsProper healthy) made_lem
      calls
      (tt, (config-IsProper latency, (tt, (tt, (tt, (tt, (config-IsProper dropout, (tt, tt))))))))

busy-IsSound : IsSound busy
busy-IsSound = record {
  wired = record {
    queue_valid = queue-IsValid;
    idle = inl refl;
    capacity = refl;
    hold_mode = refl;
    probability = refl;
  };
  conserved = refl;
  clock = omega arith;
}

made-IsSound : IsSound made
made-IsSound = record {
  wired = record {
    queue_valid = record { ordered = tt; numbered = tt; fits = omega arith };
    idle = inr refl;
    capacity = refl;
    hold_mode = refl;
    probability = refl;
  };
  conserved = refl;
  clock = tt;
}

configure_flushes_example :
    (s' : FaultInjector Fixed ℕ ℕ) × (Injector.configure busy (config stale) (integer (pos 5))
      ≡ (ok (map message_of (pending queue)), s'))
    × (pending_count s' ≡ 0)
    × (s'.forwarded ≡ 1 + 2)
    × (s'.config ≡ config stale)
configure_flushes_example =
    configure_flushes busy (config stale) 5 (omega arith) (config-IsProper stale) refl refl refl

receive_returns_example :
    (out : List ℕ) × ((Injector.receive busy (ok 40) (integer (pos 5))).0 ≡ ok out)
receive_returns_example =
    receive_returns ℕ-IsRandom Fixed-IsFloat busy 40 5 busy-IsSound (omega arith)
      (inr (omega arith))

-- what `made` becomes when it receives 10 at the time 1, and when it is then put in the stale mode
abbrev fed : FaultInjector Fixed ℕ ℕ
fed = record made {
  hold = record { enabled = false; latest = some 10; held = none };
  last_time_ns = some 1;
  received = 1;
  forwarded = 1;
}

abbrev frozen : FaultInjector Fixed ℕ ℕ
frozen = record fed {
  config = config stale;
  hold = record { enabled = true; latest = some 10; held = some 10 };
  last_time_ns = some 2;
}

fed_lem : Injector.receive made (ok 10) (integer (pos 1)) ≡ (ok (10 ∷ []), fed)
unfolding Injector.receive Clock.validate_time
fed_lem = refl

frozen_lem : Injector.configure fed (config stale) (integer (pos 2)) ≡ (ok [], frozen)
unfolding Injector.configure Fixed-Float Clock.validate_time in_unit_range
frozen_lem = refl

stale_sends_latest_example : All (Ensures (λ sent. sent ≡ 10 ∷ [])) (
    receive_all
      ((ok 20, integer (pos 3))
        ∷ (ok 30, integer (pos 2))
        ∷ (raise type_error, integer (pos 5))
        ∷ [])
      frozen)
stale_sends_latest_example =
    stale_sends_latest made fed frozen 10 (config stale) (integer (pos 1)) (integer (pos 2))
      made-IsSound refl fed_lem (config-IsProper stale) refl refl frozen_lem _

abbrev dropper : Dropout Fixed
dropper = record { probability = finite (pos 250_000_000) }

should_drop_decides_example :
    (x : Fixed) × ((Random.random ℕ-Random 5).0 ≡ floating x)
    × (should_drop (Random.random ℕ-Random) dropper (boolean true) 5 ≡ (
      ok (
          not (Float.eqb Fixed-Float dropper.probability nought)
          && (Float.eqb Fixed-Float dropper.probability one
              || Float.lt Fixed-Float x dropper.probability)),
      if is_determined dropper true then 5 else (Random.random ℕ-Random 5).1,
    ))
should_drop_decides_example = should_drop_decides ℕ-IsRandom dropper true 5
