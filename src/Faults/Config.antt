-- ===== src/Faults/Config.antt =====
-- The fault modes and `FaultConfig` of ros2_resilience/faults/injector.py.
use ros2_resilience.Prelude.{ℕ, Bool, true, false, ◌&&◌, Option, none, some}
use ros2_resilience.Python.Float.{Float}
use ros2_resilience.Python.Result.{Result, ok, raise, type_error, ◌>>=◌}
use ros2_resilience.Python.Value.{Value, boolean, validate_nonnegative_int, validate_fraction}

-- `FaultType.NONE` is `healthy`
pub data FaultType : Type 0 where
  healthy dropout latency stale : FaultType

pub FaultType-discrete : Discrete FaultType
FaultType-discrete = hlevel

-- The probability is kept as the float that `Dropout` makes of it.
pub record FaultConfig (F : Type 0) : Type 0 where
  pub enabled : Bool
  pub fault_type : FaultType
  pub drop_probability : F
  pub delay_ns : ℕ
  pub jitter_ns : ℕ
  pub seed : ℕ

-- `none` is an object that is no `FaultType`
abbrev check_type : Option FaultType → Result FaultType
check_type none = raise type_error
check_type (some t) = ok t

abbrev is_stale : FaultType → Bool
is_stale stale = true
is_stale _ = false

abbrev pub is_latency : FaultType → Bool
is_latency latency = true
is_latency _ = false

module _ {F : Type 0} where
  check_bool : Value F → Result Bool
  check_bool (boolean b) = ok b
  check_bool _ = raise type_error

  -- `_stale_is_active`, `_latency_is_active`
  abbrev pub stale_is_active : FaultConfig F → Bool
  stale_is_active c = c.enabled && is_stale c.fault_type

  abbrev pub latency_is_active : FaultConfig F → Bool
  latency_is_active c = c.enabled && is_latency c.fault_type

-- `FaultConfig(...)`, with the checks of `__post_init__`
unfoldable pub make_config :
    {F : Type 0} ⦃f : Float F⦄
    → Value F
    → Option FaultType
    → Value F
    → Value F
    → Value F
    → Value F
    → Result (FaultConfig F)
unfolding check_bool validate_fraction validate_nonnegative_int
make_config enabled fault_type drop_probability delay_ns jitter_ns seed = do
  on ← check_bool enabled
  kind ← check_type fault_type
  p ← validate_fraction drop_probability
  delay ← validate_nonnegative_int delay_ns
  jitter ← validate_nonnegative_int jitter_ns
  s ← validate_nonnegative_int seed
  ok (record {
    enabled = on;
    fault_type = kind;
    drop_probability = p;
    delay_ns = delay;
    jitter_ns = jitter;
    seed = s;
  })
