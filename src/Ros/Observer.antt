-- ===== src/Ros/Observer.antt =====
-- `_ObserverNode` of ros2_resilience/ros/experiment_runner_node.py: each message that carries evidence
-- becomes an event. Python's `int` of a text is a parameter, which gives none where it raises. Of the
-- payloads, the model has the entries that the core reads.
pub mod Identifiers
use Prim.Native.String.{◌++◌}
use package.text.Mathlib.Text.{◌==◌ as str_eq}
use ros2_resilience.Prelude.{
  ℕ, suc, ℤ, pos, Bool, true, false, ◌&&◌, String, Option, none, some, List, [], ◌∷◌,
  ◌++◌ as append, if◌then◌else◌,
}
use ros2_resilience.Python.Decimal.{str}
use ros2_resilience.Python.Result.{Result, ok, raise}
use ros2_resilience.Python.Value.{Value, integer}
use ros2_resilience.Core.Events.{
  Event, EventKind, ClockDomain, ros, Payload, Slot, missing, null, value, make_event,
  config_applied, raw_odometry, faulted_odometry, injector_counters, watchdog_violation,
  recovery_published, command_observed,
}
use ros2_resilience.Ros.Messages.{Twist, Odometry, Diagnostic, stamp_ns}

pub record ObserverNode : Type 0 where
  pub trial_id : String
  pub event_seq : ℕ
  pub seen_raw : Bool
  pub seen_faulted : Bool

-- a message on one of the topics that the node subscribes to
pub data Message (F : Type 0) : Type 0 where
  raw faulted : Odometry F → Message F
  command : Twist F → Message F
  watchdog : Diagnostic F → Message F
  -- the keys and the values of the status
  counters : List (String × String) → Message F
  recovery : Message F
  applied : ℤ → Message F

-- `_ObserverNode.__init__`, without the subscriptions
abbrev pub init : String → ObserverNode
init trial_id = record {
  trial_id = trial_id;
  event_seq = 0;
  seen_raw = false;
  seen_faulted = false;
}

abbrev pub is_ready : ObserverNode → Bool
is_ready n = n.seen_raw && n.seen_faulted

-- `f"{self._trial_id}-{self._event_seq}"`
unfoldable pub event_id : String → ℕ → String
unfolding str
event_id trial_id seq = trial_id ++ ("-" ++ str seq)

-- `{kv.key: kv.value for kv in values}.get(key)`: the last value of the key
unfoldable pub get_last : String → List (String × String) → Option String → Option String
get_last key [] found = found
get_last key ((k, v) ∷ kvs) found =
    let rest = get_last key kvs (some v) in
    let other = get_last key kvs found in if str_eq key k then rest else other

-- `_safe_int`
abbrev pub safe_int : (String → Option ℤ) → Option String → Slot ℤ
safe_int int_of none = null
safe_int int_of (some text) = elim (int_of text) [ none ↦ null | some z ↦ value z ]

abbrev domain : Option ℤ → Option ClockDomain
domain none = none
domain (some z) = some ros

module _ {F : Type 0} where
  abbrev pub empty_payload : Payload F
  empty_payload = record {
    linear_x = none;
    angular_z = none;
    stamp_ns = none;
    reason = none;
    dropped = missing;
  }

  abbrev pub odometry_payload : Odometry F → Payload F
  odometry_payload msg = record empty_payload {
    linear_x = some msg.twist.linear_x;
    angular_z = some msg.twist.angular_z;
    stamp_ns = some (stamp_ns msg.stamp);
  }

  abbrev int_value : Option ℤ → Option (Value F)
  int_value none = none
  int_value (some z) = some (integer z)

  -- `_emit`: the event, or what its checks raise, and the node that it leaves
  unfoldable pub emit :
      ObserverNode → EventKind → Payload F → Option ℤ → ℕ → Result (Event F) × ObserverNode
  unfolding event_id make_event
  emit n kind payload occurrence now = (
    make_event (event_id n.trial_id (suc n.event_seq)) n.trial_id "observer" (some kind)
        (integer (pos now)) payload (int_value occurrence) (domain occurrence),
    record n { event_seq = suc n.event_seq },
  )

  -- the call of `on_config_applied`, which an exception of the event prevents
  abbrev reports : ℤ → ℕ → Result (Event F) → List (ℤ × ℕ)
  reports revision now (raise e) = []
  reports revision now (ok e) = (revision, now) ∷ []

  abbrev silent : Result (Event F) × ObserverNode → Result (Event F) × List (ℤ × ℕ) × ObserverNode
  silent o = (o.0, [], o.1)

  -- the handlers of the seven subscriptions, at a reading of `time.monotonic_ns()`: the event, the
  -- calls of `on_config_applied`, and the node
  unfoldable pub observe :
      (String → Option ℤ)
      → ObserverNode
      → Message F
      → ℕ
      → Result (Event F) × List (ℤ × ℕ) × ObserverNode
  unfolding emit get_last
  observe int_of n (raw msg) now = silent (
      emit (record n { seen_raw = true }) raw_odometry (odometry_payload msg)
        (some (stamp_ns msg.stamp)) now)
  observe int_of n (faulted msg) now = silent (
      emit (record n { seen_faulted = true }) faulted_odometry (odometry_payload msg)
        (some (stamp_ns msg.stamp)) now)
  observe int_of n (command msg) now = silent (
      emit n command_observed
        (record empty_payload { linear_x = some msg.linear_x; angular_z = some msg.angular_z }) none
        now)
  observe int_of n (watchdog msg) now =
      silent
        (emit n watchdog_violation (record empty_payload { reason = some msg.message }) none now)
  observe int_of n (counters kvs) now = silent (
      emit n injector_counters
        (record empty_payload { dropped = safe_int int_of (get_last "dropped" kvs none) }) none now)
  observe int_of n recovery now = silent (emit n recovery_published empty_payload none now)
  observe int_of n (applied revision) now =
      let o = emit n config_applied empty_payload none now in (o.0, reports revision now o.0, o.1)

  -- the events so far, the calls of `on_config_applied`, and the node or what ends the trial
  abbrev after :
      Result (Event F)
      → List (ℤ × ℕ)
      → List (Event F) × List (ℤ × ℕ) × Result ObserverNode
      → List (Event F) × List (ℤ × ℕ) × Result ObserverNode
  after (raise e) calls rest = ([], calls, raise e)
  after (ok e) calls rest = (e ∷ rest.0, append calls rest.1, rest.2)

  -- a sequence of messages, up to the first whose handler raises
  unfoldable pub observe_all :
      (String → Option ℤ)
      → List (Message F × ℕ)
      → ObserverNode
      → List (Event F) × List (ℤ × ℕ) × Result ObserverNode
  unfolding observe
  observe_all int_of [] n = ([], [], ok n)
  observe_all int_of ((msg, now) ∷ msgs) n =
      let o = observe int_of n msg now in
      let rest = observe_all int_of msgs o.2 in after o.0 o.1 rest
