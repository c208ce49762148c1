-- ===== src/Ros/TrialLoop.antt =====
-- The loops of `run_trial` in ros2_resilience/ros/experiment_runner_node.py: they spin the nodes, ask
-- the lifecycle what to do, and configure the injector. What a spin runs and the readings of the clock
-- are arguments, one round after the other; an exception ends the trial.
pub mod Stages
pub mod Configurations
use ros2_resilience.Prelude.{
  ℕ, ℤ, pos, ◌+ℤ◌, leb_ℤ, Bool, true, false, Option, none, some, List, [], ◌∷◌, ◌++◌, if◌then◌else◌,
}
use ros2_resilience.Python.Float.{Float, nought, nanos_per_sec}
use ros2_resilience.Python.Result.{Result, ok, raise, ◌>>=◌}
use ros2_resilience.Faults.Config
use ros2_resilience.Faults.Config.{FaultConfig}
use ros2_resilience.Faults.Random.{Random}
use ros2_resilience.Core.Experiment
use ros2_resilience.Core.Experiment.{
  LifecycleState, starting, finalizing, finished, Action, ActionType, activate_fault,
  deactivate_fault, finish_trial, TrialLifecycle, Outcome,
}
use ros2_resilience.Core.Scenario.{ScenarioConfig}
use ros2_resilience.Ros.InjectorNode
use ros2_resilience.Ros.InjectorNode.{FaultInjectorNode, Handled}
use ros2_resilience.Ros.Runner.{build_fault_config}

-- What `spin_once` runs: a handler of the injector's node, the observer's handler of an applied
-- revision, or something that touches neither the lifecycle nor the injector.
pub data Callback (T : Type 0) : Type 0 where
  nothing : Callback T
  on_input : Result T → ℕ → Callback T
  on_poll : ℕ → Callback T
  on_config_applied : ℤ → ℤ → Callback T

-- a round of the loop that waits for the nodes
pub record Waiting (T : Type 0) : Type 0 where
  pub callback : Callback T
  pub is_ready : Bool
  pub now : ℤ

-- a round of the main loop, with the reading that `apply_config` takes
pub record Round (T : Type 0) : Type 0 where
  pub callback : Callback T
  pub now : ℤ
  pub clock : ℕ

pub record Trial (F R T : Type 0) : Type 0 where
  pub lifecycle : TrialLifecycle F
  pub injector : FaultInjectorNode F R T
  -- the configurations and revisions that `apply_config` was called with
  pub applied : List (FaultConfig F × ℕ)

abbrev is_starting : LifecycleState → Bool
is_starting starting = true
is_starting _ = false

abbrev is_over : LifecycleState → Bool
is_over finalizing = true
is_over finished = true
is_over _ = false

-- `FaultConfig(enabled=False, fault_type=FaultType.NONE, seed=seed)`
abbrev pub disabled : {F : Type 0} ⦃f : Float F⦄ → ℕ → FaultConfig F
disabled seed = record {
  enabled = false;
  fault_type = Config.healthy;
  drop_probability = nought;
  delay_ns = 0;
  jitter_ns = 0;
  seed = seed;
}

abbrev pub type_of : Option Action → Option ActionType
type_of none = none
type_of (some a) = some a.type

module _ {F R T : Type 0} where
  -- a call of a method of the lifecycle
  abbrev pub moved : {A : Type 0} → Trial F R T → Outcome A F → Result (A × Trial F R T)
  moved t (raise e, l) = raise e
  moved t (ok a, l) = ok (a, record t { lifecycle = l })

  -- after a round: the loop is left by `break`, or goes on
  abbrev pub proceed :
      Bool × Trial F R T
      → (Trial F R T → Result (Option (Trial F R T)))
      → Result (Option (Trial F R T))
  proceed (true, t) next = ok (some t)
  proceed (false, t) next = next t

  -- a handler of the injector's node that `spin_once` ran
  abbrev handled : Trial F R T → Handled F R T → Result (Trial F R T)
  handled t (raise e, n) = raise e
  handled t (ok outs, n) = ok (record t { injector = n })

module _ {F R T : Type 0} ⦃f : Float F⦄ ⦃g : Random F R⦄ where
  unfoldable pub spin_once : Callback T → Trial F R T → Result (Trial F R T)
  unfolding InjectorNode.on_input InjectorNode.on_poll Experiment.on_config_applied
  spin_once nothing t = ok t
  spin_once (on_input m clock) t = handled t (InjectorNode.on_input t.injector m clock)
  spin_once (on_poll clock) t = handled t (InjectorNode.on_poll t.injector clock)
  spin_once (on_config_applied revision now) t = do
    moved' ← moved t (Experiment.on_config_applied t.lifecycle revision now)
    ok moved'.1

  -- the call of `apply_config`
  abbrev configure : Trial F R T → FaultConfig F → ℕ → ℕ → Result (Trial F R T)
  configure t config revision clock =
      handled (record t { applied = t.applied ++ ((config, revision) ∷ []) })
        (InjectorNode.apply_config t.injector config revision clock)

  -- the branches on the action, and whether the loop is left
  unfoldable pub act :
      ScenarioConfig F → ℕ → ℕ → Option ActionType → Trial F R T → Result (Bool × Trial F R T)
  unfolding InjectorNode.apply_config
  act s seed clock none t = ok (false, t)
  act s seed clock (some activate_fault) t = do
    config ← build_fault_config s (pos seed)
    t' ← configure t config 1 clock
    ok (false, t')
  act s seed clock (some deactivate_fault) t = do
    t' ← configure t (disabled seed) 2 clock
    ok (false, t')
  act s seed clock (some finish_trial) t = ok (true, t)

  -- the body of the main loop
  unfoldable pub main_round :
      ScenarioConfig F → ℕ → Round T → Trial F R T → Result (Bool × Trial F R T)
  unfolding spin_once Experiment.tick act
  main_round s seed r t = do
    spun ← spin_once r.callback t
    ticked ← moved spun (Experiment.tick spun.lifecycle r.now)
    act s seed r.clock (type_of ticked.0) ticked.1

  -- the main loop; `none` is a trial that goes on after these rounds
  unfoldable pub main_loop :
      ScenarioConfig F → ℕ → List (Round T) → Trial F R T → Result (Option (Trial F R T))
  unfolding main_round
  main_loop s seed [] t = if is_over t.lifecycle.state then ok (some t) else ok none
  main_loop s seed (r ∷ rs) t =
      let rest = main_round s seed r t >>= λ done. proceed done (main_loop s seed rs) in
      if is_over t.lifecycle.state then ok (some t) else rest

  -- the rest of a round of the loop that waits for the nodes, after the spin
  unfoldable pub wait_step : ℤ → Bool → ℤ → Trial F R T → Result (Bool × Trial F R T)
  unfolding Experiment.mark_ready Experiment.fail
  wait_step deadline true now t =
      moved t (Experiment.mark_ready t.lifecycle now) >>= λ m. ok (true, m.1)
  wait_step deadline false now t =
      if leb_ℤ deadline now
      then (moved t (Experiment.fail t.lifecycle "readiness timeout") >>= λ m. ok (true, m.1))
      else ok (false, t)

  -- the body of the loop that waits for the nodes, until the deadline
  unfoldable pub wait_round : ℤ → Waiting T → Trial F R T → Result (Bool × Trial F R T)
  unfolding spin_once wait_step
  wait_round deadline w t = do
    spun ← spin_once w.callback t
    wait_step deadline w.is_ready w.now spun

  unfoldable pub wait_loop : ℤ → List (Waiting T) → Trial F R T → Result (Option (Trial F R T))
  unfolding wait_round
  wait_loop deadline [] t = if is_starting t.lifecycle.state then ok none else ok (some t)
  wait_loop deadline (w ∷ ws) t =
      let rest = wait_round deadline w t >>= λ done. proceed done (wait_loop deadline ws) in
      if is_starting t.lifecycle.state then rest else ok (some t)

  -- the loop that drains the executor
  unfoldable pub drain : List (Callback T) → Trial F R T → Result (Trial F R T)
  unfolding spin_once
  drain [] t = ok t
  drain (c ∷ cs) t = do t' ← spin_once c t; drain cs t'

  -- the last step, of a trial that is finalizing
  unfoldable pub close_in : LifecycleState → Trial F R T → Result (Trial F R T)
  unfolding Experiment.finish
  close_in finalizing t = moved t (Experiment.finish t.lifecycle) >>= λ m. ok m.1
  close_in _ t = ok t

  abbrev close : Trial F R T → Result (Trial F R T)
  close t = close_in t.lifecycle.state t

  -- the drain and the last step, if the main loop has ended
  abbrev end : List (Callback T) → Option (Trial F R T) → Result (Option (Trial F R T))
  end cs none = ok none
  end cs (some t) = do t' ← drain cs t; t'' ← close t'; ok (some t'')

  abbrev continue :
      (Trial F R T → Result (Option (Trial F R T)))
      → Option (Trial F R T)
      → Result (Option (Trial F R T))
  continue next none = ok none
  continue next (some t) = next t

  -- The nodes' part of `run_trial`: the start, the two loops, the drain and the last step. The deadline
  -- of the first loop is a second reading of the clock and the timeout.
  unfoldable pub run_nodes :
      ScenarioConfig F
      → ℕ
      → ℤ
      → ℤ
      → List (Waiting T)
      → List (Round T)
      → List (Callback T)
      → FaultInjectorNode F R T
      → Result (Option (Trial F R T))
  unfolding Experiment.start Experiment.init ◌+ℤ◌ wait_loop main_loop drain close_in
  run_nodes s seed now later ws rs cs node = do
    started ←
        moved (record { lifecycle = Experiment.init s; injector = node; applied = [] })
          (Experiment.start (Experiment.init s) now)
    timeout ← f.trunc (f.mul s.experiment.readiness_timeout_sec (f.of_int (pos nanos_per_sec)))
    waited ← wait_loop (later +ℤ timeout) ws started.1
    looped ← continue (main_loop s seed rs) waited
    end cs looped
