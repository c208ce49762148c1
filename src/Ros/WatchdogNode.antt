-- ===== src/Ros/WatchdogNode.antt =====
-- ros2_resilience/ros/watchdog_node.py: the handlers of the node around a watchdog's evaluator.
pub mod Latching
use ros2_resilience.Prelude.{ℤ, Bool, true, false, String, Option, none, some, List, [], ◌∷◌}
use ros2_resilience.Python.Float.{Float}
use ros2_resilience.Python.Result.{Result, ok, ◌>>=◌}
use ros2_resilience.Python.Value.{integer, floating}
use ros2_resilience.Health.Watchdog
use ros2_resilience.Health.Watchdog.{
  ViolationReason, message_age_exceeded, loss_fraction_exceeded, WatchdogStatus, WatchdogEvaluator,
}
use ros2_resilience.Ros.Messages.{Time, Twist, Odometry, Diagnostic, stop, stamp_ns}

-- a message on one of the node's three topics
pub data Output (F : Type 0) : Type 0 where
  status : Diagnostic F → Output F
  command : Twist F → Output F
  recovery_published : Diagnostic F → Output F

-- `reason.value`
abbrev pub reason_text : Option ViolationReason → String
reason_text none = ""
reason_text (some message_age_exceeded) = "message_age_exceeded"
reason_text (some loss_fraction_exceeded) = "loss_fraction_exceeded"

module _ {F : Type 0} ⦃f : Float F⦄ where
  abbrev pub diagnostic : WatchdogStatus F → Diagnostic F
  diagnostic s = record {
    message = reason_text s.reason;
    age_sec = s.age_sec;
    loss_fraction = s.loss_fraction;
  }

  -- `_on_check`, once the status is known
  unfoldable pub report : WatchdogStatus F → List (Output F)
  report s = elim s.violated [
    | false ↦ []
    | true ↦ status (diagnostic s) ∷ command stop ∷ recovery_published (diagnostic s) ∷ []
  ]

  -- `_on_input`, at a reading of the node's clock
  unfoldable pub on_input : WatchdogEvaluator F → Odometry F → ℤ → Result (WatchdogEvaluator F)
  unfolding Watchdog.record_arrival
  on_input w msg clock =
      Watchdog.record_arrival w (integer clock) (some (integer (stamp_ns msg.stamp)))

  -- `_on_check`: what it publishes or raises, and the evaluator that it leaves
  unfoldable pub on_check : WatchdogEvaluator F → ℤ → Result (List (Output F)) × WatchdogEvaluator F
  unfolding Watchdog.check report
  on_check w clock =
      let (result, w') = Watchdog.check w (integer clock) in (result >>= λ s. ok (report s), w')
