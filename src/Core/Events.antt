-- ===== src/Core/Events.antt =====
-- ros2_resilience/core/events.py: the observations of a trial. Of the payload, a dictionary, the
-- model has the entries that the core reads, at the types that the observer writes.
use ros2_resilience.Prelude.{ℕ, ℤ, Bool, true, false, String, Option, none, some, if◌then◌else◌}
use ros2_resilience.Python.Result.{Result, ok, raise, type_error, value_error, ◌>>=◌}
use ros2_resilience.Python.Value.{Value, validate_nonnegative_int}
use text.Mathlib.Text.{◌==◌ as str_eq}

pub data EventKind : Type 0 where
  config_applied raw_odometry faulted_odometry injector_counters : EventKind
  watchdog_violation recovery_published command_observed infrastructure_error : EventKind

pub data ClockDomain : Type 0 where
  monotonic ros : ClockDomain

-- an entry of the payload: no key, the value `None`, or a value
pub data Slot (A : Type 0) : Type 0 where
  missing null : Slot A
  value : A → Slot A

pub record Payload (F : Type 0) : Type 0 where
  pub linear_x : Option F
  pub angular_z : Option F
  pub stamp_ns : Option ℤ
  pub reason : Option String
  pub dropped : Slot ℤ

pub record Event (F : Type 0) : Type 0 where
  pub event_id : String
  pub trial_id : String
  pub source : String
  pub kind : EventKind
  pub receipt_ns : ℕ
  pub payload : Payload F
  pub occurrence_ns : Option ℕ
  pub occurrence_domain : Option ClockDomain

abbrev pub nonempty : String → Result (Unit {0})
nonempty s = if str_eq s "" then raise value_error else ok tt

-- `none` is an object that is no `EventKind`
abbrev pub check_kind : Option EventKind → Result EventKind
check_kind none = raise type_error
check_kind (some k) = ok k

-- the time and the clock that it was drawn from are set together
abbrev pub check_occurrence :
    {F : Type 0} → Option (Value F) → Option ClockDomain → Result (Option ℕ)
check_occurrence none none = ok none
check_occurrence none (some d) = raise value_error
check_occurrence (some v) none = raise value_error
check_occurrence (some v) (some d) = do t ← validate_nonnegative_int v; ok (some t)

-- `Event(...)`, with the checks of `__post_init__`
unfoldable pub make_event :
    {F : Type 0}
    → String
    → String
    → String
    → Option EventKind
    → Value F
    → Payload F
    → Option (Value F)
    → Option ClockDomain
    → Result (Event F)
unfolding validate_nonnegative_int
make_event event_id trial_id source kind receipt_ns payload occurrence_ns occurrence_domain = do
  _ ← nonempty event_id
  _ ← nonempty trial_id
  _ ← nonempty source
  k ← check_kind kind
  receipt ← validate_nonnegative_int receipt_ns
  occurrence ← check_occurrence occurrence_ns occurrence_domain
  ok (record {
    event_id = event_id;
    trial_id = trial_id;
    source = source;
    kind = k;
    receipt_ns = receipt;
    payload = payload;
    occurrence_ns = occurrence;
    occurrence_domain = occurrence_domain;
  })

-- `e.kind is kind`
abbrev pub is_kind : EventKind → EventKind → Bool
is_kind config_applied config_applied = true
is_kind raw_odometry raw_odometry = true
is_kind faulted_odometry faulted_odometry = true
is_kind injector_counters injector_counters = true
is_kind watchdog_violation watchdog_violation = true
is_kind recovery_published recovery_published = true
is_kind command_observed command_observed = true
is_kind infrastructure_error infrastructure_error = true
is_kind _ _ = false
