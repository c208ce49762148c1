-- ===== src/Ros/InjectorNode.antt =====
-- ros2_resilience/ros/fault_injector_node.py: the handlers of the node around an injector. A reading
-- of `time.monotonic_ns()` is an argument of the handler that takes it.
pub mod Running
use ros2_resilience.Prelude.{
  ℕ, ltb, Option, none, List, [], ◌∷◌, ◌++◌, map, pos, if◌then◌else◌, false,
}
use ros2_resilience.Python.Float.{Float, nought}
use ros2_resilience.Python.Result.{Result, ok, raise, ◌>>=◌}
use ros2_resilience.Python.Value.{integer}
use ros2_resilience.Faults.Config.{FaultConfig, healthy}
use ros2_resilience.Faults.Injector
use ros2_resilience.Faults.Injector.{FaultInjector, FaultCounters, Outcome, counters}
use ros2_resilience.Faults.Random.{Random}

-- a message on one of the node's three topics
pub data Output (T : Type 0) : Type 0 where
  odometry : T → Output T
  config_applied : ℕ → Output T
  counted : FaultCounters → Output T

pub record FaultInjectorNode (F R T : Type 0) : Type 0 where
  pub injector : FaultInjector F R T
  pub revision : ℕ
  pub last_ns : ℕ

-- what a handler publishes or raises, and the node that it leaves
abbrev pub Handled : Type 0 → Type 0 → Type 0 → Type 0
Handled F R T = Result (List (Output T)) × FaultInjectorNode F R T

module _ {F R T : Type 0} where
  -- `_now_ns`: the last time, which does not go back
  abbrev pub now_ns : FaultInjectorNode F R T → ℕ → FaultInjectorNode F R T
  now_ns n clock = record n { last_ns = if ltb clock n.last_ns then n.last_ns else clock }

  -- `_publish_counters`
  abbrev pub publish_counters : FaultInjector F R T → List (Output T)
  publish_counters s = counted (counters s) ∷ []

  -- the rest of `apply_config`, once `configure` has returned or raised
  unfoldable pub applied : FaultInjectorNode F R T → ℕ → Outcome F R T → Handled F R T
  applied n revision (raise e, s) = (raise e, record n { injector = s })
  applied n revision (ok flushed, s) = (
    ok (map odometry flushed ++ (config_applied revision ∷ publish_counters s)),
    record n { injector = s; revision = revision },
  )

  -- the rest of `_on_input`
  unfoldable pub forwarded : FaultInjectorNode F R T → Outcome F R T → Handled F R T
  forwarded n (raise e, s) = (raise e, record n { injector = s })
  forwarded n (ok outputs, s) =
      (ok (map odometry outputs ++ publish_counters s), record n { injector = s })

  -- the rest of `_on_poll`
  unfoldable pub polled : FaultInjectorNode F R T → Outcome F R T → Handled F R T
  polled n (raise e, s) = (raise e, record n { injector = s })
  polled n (ok outputs, s) = (ok (map odometry outputs), record n { injector = s })

module _ {F R T : Type 0} ⦃f : Float F⦄ ⦃g : Random F R⦄ where
  unfoldable pub apply_config : FaultInjectorNode F R T → FaultConfig F → ℕ → ℕ → Handled F R T
  unfolding applied
  apply_config n config revision clock =
      let n' = now_ns n clock in
      applied n' revision (Injector.configure n'.injector config (integer (pos n'.last_ns)))

  -- `_on_input`, on what `deepcopy` makes of the message
  unfoldable pub on_input : FaultInjectorNode F R T → Result T → ℕ → Handled F R T
  unfolding forwarded
  on_input n message clock =
      let n' = now_ns n clock in
      forwarded n' (Injector.receive n'.injector message (integer (pos n'.last_ns)))

  -- `_on_poll`
  unfoldable pub on_poll : FaultInjectorNode F R T → ℕ → Handled F R T
  unfolding polled
  on_poll n clock =
      let n' = now_ns n clock in polled n' (Injector.poll n'.injector (integer (pos n'.last_ns)))

-- `FaultConfig()`
abbrev pub default_config : {F : Type 0} ⦃f : Float F⦄ → FaultConfig F
default_config = record {
  enabled = false;
  fault_type = healthy;
  drop_probability = nought;
  delay_ns = 0;
  jitter_ns = 0;
  seed = 0;
}

module _ {F R : Type 0} ⦃f : Float F⦄ ⦃g : Random F R⦄ (T : Type 0) where
  -- `__init__`, without the parameters, publishers, subscriptions and timers
  unfoldable pub init : ℕ → Result (FaultInjectorNode F R T)
  unfolding Injector.init
  init clock = do
    injector ← Injector.init {T = T} default_config (integer (pos 1000)) none
    ok (record { injector = injector; revision = 0; last_ns = clock })
