-- ===== src/Ros/Runner/Configured.antt =====
-- The injector's configuration that ros/experiment_runner_node.py makes of an accepted fault section.
use ros2_resilience.Prelude.{ℕ, pos, ◌≡◌, refl, Bool, true, false, Option, none, some, arith}
use ros2_resilience.Python.Float.{Float, nought, seconds_to_ns}
use ros2_resilience.Python.Result.{ok}
use ros2_resilience.Python.Value.{in_unit_range, validate_fraction}
use ros2_resilience.Faults.Config.{FaultConfig, FaultType, make_config}
use ros2_resilience.Core.Accepted.{IsProbability, Fits}
use ros2_resilience.Core.Scenario.{FaultKind, healthy, dropout, latency, stale}
use ros2_resilience.Ros.Runner.{or_nought, build}

abbrev mode : FaultKind → FaultType
mode healthy = FaultType.healthy
mode dropout = FaultType.dropout
mode latency = FaultType.latency
mode stale = FaultType.stale

abbrev is_fault : FaultKind → Bool
is_fault healthy = false
is_fault _ = true

module _ {F : Type 0} ⦃f : Float F⦄ where
  -- the delays of a latency fault in nanoseconds, and zeros for the other types
  abbrev pub Converts : FaultKind → Option F → Option F → ℕ → ℕ → Type 0
  Converts latency (some delay) jitter d j =
      (seconds_to_ns delay ≡ ok (pos d)) × (seconds_to_ns (or_nought jitter) ≡ ok (pos j))
  Converts kind delay jitter d j = (d ≡ 0) × (j ≡ 0)

  abbrev pub expected : FaultKind → Option F → ℕ → ℕ → ℕ → FaultConfig F
  expected kind p d j seed = record {
    enabled = is_fault kind;
    fault_type = mode kind;
    drop_probability = or_nought p;
    delay_ns = d;
    jitter_ns = j;
    seed = seed;
  }

  proper : (p : F) → IsProbability p → in_unit_range p ≡ true
  unfolding in_unit_range
  proper p h = ground (arith, h)

  -- A fault whose parameters were accepted becomes the enabled configuration of its own mode, with its
  -- parameters and the seed of the trial, and a healthy control becomes the disabled one. The delays
  -- fit a number of nanoseconds, and 0.0 is a probability.
  pub build-expected :
      (kind : FaultKind) (p delay jitter : Option F) (d j seed : ℕ)
      → in_unit_range {F = F} nought ≡ true
      → Fits kind p delay jitter
      → Converts kind delay jitter d j
      → build kind
          (record { drop_probability = p; delay_sec = delay; jitter_sec = jitter })
          (pos seed)
        ≡ ok (expected kind p d j seed)
  unfolding build make_config validate_fraction
  build-expected healthy none none none d j seed zero h k = rw (zero, k.0, k.1) refl
  build-expected stale none none none d j seed zero h k = rw (zero, k.0, k.1) refl
  build-expected dropout (some p) none none d j seed zero h k = rw (proper p h, k.0, k.1) refl
  build-expected latency none (some delay) none d j seed zero h k = rw (k.0, k.1, zero) refl
  build-expected latency none (some delay) (some jitter) d j seed zero h k =
      rw (k.0, k.1, zero) refl
  build-expected healthy none none (some j') d j seed zero h k = elim h [ ]
  build-expected healthy none (some d') jitter d j seed zero h k = elim h [ ]
  build-expected healthy (some p) delay jitter d j seed zero h k = elim h [ ]
  build-expected dropout none delay jitter d j seed zero h k = elim h [ ]
  build-expected dropout (some p) none (some j') d j seed zero h k = elim h [ ]
  build-expected dropout (some p) (some d') jitter d j seed zero h k = elim h [ ]
  build-expected latency none none jitter d j seed zero h k = elim h [ ]
  build-expected latency (some p) delay jitter d j seed zero h k = elim h [ ]
  build-expected stale none none (some j') d j seed zero h k = elim h [ ]
  build-expected stale none (some d') jitter d j seed zero h k = elim h [ ]
  build-expected stale (some p) delay jitter d j seed zero h k = elim h [ ]
