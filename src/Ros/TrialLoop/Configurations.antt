-- ===== src/Ros/TrialLoop/Configurations.antt =====
-- Which configurations the loops of `run_trial` give to the injector's node, and in which order.
use mathlib.Core.Path.{subst}
use ros2_resilience.Prelude.{
  ℕ, zero, suc, ℤ, pos, ◌+ℤ◌, leb_ℤ, if◌then◌else◌, ◌≡◌, refl, ap, Bool, true, false, Option, none,
  some, List, [], ◌∷◌, ◌++◌, Bool-cases, inl, inr,
}
use ros2_resilience.Python.Float.{Float, nanos_per_sec}
use ros2_resilience.Python.Result.{Result, ok, raise, Ensures, Ensures-bind, Ensures-then, ◌>>=◌}
use ros2_resilience.Faults.Config.{FaultConfig}
use ros2_resilience.Faults.Random.{Random}
use ros2_resilience.Core.Scenario.{ScenarioConfig, is_healthy_control}
use ros2_resilience.Core.Experiment
use ros2_resilience.Core.Experiment.{
  LifecycleState, created, starting, baselining, activating, observing, finalizing, finished,
  Action, ActionType, activate_fault, deactivate_fault, finish_trial, TrialLifecycle, Outcome, init,
  tick, start, mark_ready, fail, finish,
}
use ros2_resilience.Ros.InjectorNode
use ros2_resilience.Ros.InjectorNode.{FaultInjectorNode, Handled}
use ros2_resilience.Ros.Runner.{build_fault_config}
use ros2_resilience.Ros.TrialLoop.{
  Callback, nothing, on_input, on_poll, on_config_applied, Waiting, Round, Trial, moved, handled,
  proceed, spin_once, configure, disabled, type_of, act, main_round, main_loop, wait_step,
  wait_round, wait_loop, drain, close_in, end, continue, run_nodes, is_starting, is_over,
}
use ros2_resilience.Ros.TrialLoop.Stages.{
  At, After, AfterCall, AfterPlain, tick-AfterCall, mark_ready-AfterPlain, finish-AfterPlain,
  fail-AfterPlain, applied-AfterPlain, applied_by,
}

module _ {F : Type 0} ⦃f : Float F⦄ (s : ScenarioConfig F) (seed : ℕ) where
  -- the first `k` configurations of the trial, with their revisions
  abbrev pub AreApplied : ℕ → List (FaultConfig F × ℕ) → Type 0
  AreApplied zero cs = cs ≡ []
  AreApplied (suc zero) cs =
      (c : FaultConfig F) × (build_fault_config s (pos seed) ≡ ok c) × (cs ≡ (c, 1) ∷ [])
  AreApplied (suc (suc zero)) cs =
      (c : FaultConfig F) × (build_fault_config s (pos seed) ≡ ok c)
      × (cs ≡ (c, 1) ∷ (disabled seed, 2) ∷ [])
  AreApplied _ cs = ⊥

module _ {F R T : Type 0} ⦃f : Float F⦄ ⦃g : Random F R⦄ (s : ScenarioConfig F) (seed : ℕ) where
  pub record IsStaged (t : Trial F R T) : Type 0 where
    pub stage : ℕ
    pub reached : At (is_healthy_control s) t.lifecycle stage
    pub applied : AreApplied s seed stage t.applied

  moved-IsStaged :
      {A : Type 0} (t : Trial F R T) (o : Outcome A F)
      → (h : IsStaged t) → AfterPlain (is_healthy_control s) o h.stage
      → Ensures (λ m. IsStaged m.1) (moved t o)
  moved-IsStaged t (raise e, l) h k = tt
  moved-IsStaged t (ok a, l) h k = record { stage = h.stage; reached = k; applied = h.applied }

  handled-IsStaged :
      (t : Trial F R T) (o : Handled F R T) → IsStaged t → Ensures IsStaged (handled t o)
  handled-IsStaged t (raise e, n) h = tt
  handled-IsStaged t (ok outs, n) h = record {
    stage = h.stage;
    reached = h.reached;
    applied = h.applied;
  }

  spin_once-IsStaged :
      (c : Callback T) (t : Trial F R T) → IsStaged t → Ensures IsStaged (spin_once c t)
  unfolding spin_once
  spin_once-IsStaged nothing t h = h
  spin_once-IsStaged (on_input m clock) t h =
      handled-IsStaged t (InjectorNode.on_input t.injector m clock) h
  spin_once-IsStaged (on_poll clock) t h =
      handled-IsStaged t (InjectorNode.on_poll t.injector clock) h
  spin_once-IsStaged (on_config_applied revision now) t h =
      Ensures-then (λ m. IsStaged m.1) IsStaged
        (moved t (Experiment.on_config_applied t.lifecycle revision now)) _
        (moved-IsStaged t (Experiment.on_config_applied t.lifecycle revision now) h
          (applied-AfterPlain (is_healthy_control s) t.lifecycle revision now h.stage h.reached))
        λ m staged. staged

  -- The configurations are those of the stage, and the lifecycle is past the action.
  record IsActing (a : Option ActionType) (t : Trial F R T) : Type 0 where
    stage : ℕ
    reached : After (is_healthy_control s) a t.lifecycle stage
    applied : AreApplied s seed stage t.applied

  ticked-IsActing :
      (t : Trial F R T) (o : Outcome (Option Action) F)
      → (h : IsStaged t) → AfterCall (is_healthy_control s) o h.stage
      → Ensures (λ m. IsActing (type_of m.0) m.1) (moved t o)
  ticked-IsActing t (raise e, l) h k = tt
  ticked-IsActing t (ok none, l) h k = record { stage = h.stage; reached = k; applied = h.applied }
  ticked-IsActing t (ok (some a), l) h k = record {
    stage = h.stage;
    reached = k;
    applied = h.applied;
  }

  activated :
      (t : Trial F R T) (c : FaultConfig F) (clock : ℕ)
      → build_fault_config s (pos seed) ≡ ok c
      → IsActing (some activate_fault) t
      → Ensures IsStaged (configure t c 1 clock)
  activated t c clock built h =
      let empty : t.applied ≡ [] =
        subst (λ k. AreApplied s seed k t.applied) h.reached.0 h.applied in
      let t' : Trial F R T = record t { applied = t.applied ++ ((c, 1) ∷ []) } in
      handled-IsStaged t' (InjectorNode.apply_config t.injector c 1 clock)
        (record { stage = 1; reached = h.reached.2; applied = (c, built, rw empty refl) })

  deactivated :
      (t : Trial F R T) (clock : ℕ)
      → IsActing (some deactivate_fault) t
      → Ensures IsStaged (configure t (disabled seed) 2 clock)
  deactivated t clock h =
      let (c, built, one) = subst (λ k. AreApplied s seed k t.applied) h.reached.0 h.applied in
      let t' : Trial F R T = record t { applied = t.applied ++ ((disabled seed, 2) ∷ []) } in
      handled-IsStaged t' (InjectorNode.apply_config t.injector (disabled seed) 2 clock) (record {
        stage = 2;
        reached = h.reached.2;
        applied = (c, built, ap (λ cs. cs ++ ((disabled seed, 2) ∷ [])) one);
      })

  act-IsStaged :
      (clock : ℕ) (a : Option ActionType) (t : Trial F R T)
      → IsActing a t
      → Ensures (λ done. IsStaged done.1) (act s seed clock a t)
  unfolding act
  act-IsStaged clock none t h = record { stage = h.stage; reached = h.reached; applied = h.applied }
  act-IsStaged clock (some finish_trial) t h = record {
    stage = h.stage;
    reached = h.reached;
    applied = h.applied;
  }
  act-IsStaged clock (some activate_fault) t h =
      Ensures-bind _ (build_fault_config s (pos seed)) _ λ c built.
        Ensures-then IsStaged _ (configure t c 1 clock) _ (activated t c clock built h)
          λ u staged. staged
  act-IsStaged clock (some deactivate_fault) t h =
      Ensures-then IsStaged _ (configure t (disabled seed) 2 clock) _ (deactivated t clock h)
        λ u staged. staged

  main_round-IsStaged :
      (r : Round T) (t : Trial F R T)
      → IsStaged t
      → Ensures (λ done. IsStaged done.1) (main_round s seed r t)
  unfolding main_round
  main_round-IsStaged r t h =
      Ensures-then IsStaged _ (spin_once r.callback t) _ (spin_once-IsStaged r.callback t h)
        λ u staged.
          Ensures-then (λ m. IsActing (type_of m.0) m.1) _ (moved u (tick u.lifecycle r.now)) _
            (ticked-IsActing u (tick u.lifecycle r.now) staged
              (tick-AfterCall (is_healthy_control s) u.lifecycle r.now staged.stage staged.reached))
            λ m acting. act-IsStaged r.clock (type_of m.0) m.1 acting

  -- a trial that is still to be run, or that has run
  abbrev MaybeStaged : Option (Trial F R T) → Type 0
  MaybeStaged none = Unit
  MaybeStaged (some t) = IsStaged t

  left :
      (over : Bool) (t : Trial F R T)
      → IsStaged t
      → Ensures MaybeStaged (if over then ok (some t) else ok none)
  left true t h = h
  left false t h = tt

  proceed-Staged :
      (next : Trial F R T → Result (Option (Trial F R T)))
      → ((t : Trial F R T) → IsStaged t → Ensures MaybeStaged (next t))
      → (done : Bool × Trial F R T) → IsStaged done.1
      → Ensures MaybeStaged (proceed done next)
  proceed-Staged next k (true, t) h = h
  proceed-Staged next k (false, t) h = k t h

  main_loop-Staged :
      (rs : List (Round T)) (t : Trial F R T)
      → IsStaged t
      → Ensures MaybeStaged (main_loop s seed rs t)
  unfolding main_loop
  main_loop-Staged [] t h = left (is_over t.lifecycle.state) t h
  main_loop-Staged (r ∷ rs) t h = elim (Bool-cases (is_over t.lifecycle.state)) [
    | inl over ↦ rw over h
    | inr running ↦ rw running (
        Ensures-then (λ done. IsStaged done.1) MaybeStaged (main_round s seed r t) _
          (main_round-IsStaged r t h) (proceed-Staged (main_loop s seed rs) (main_loop-Staged rs)))
  ]

  wait_step-IsStaged :
      (deadline : ℤ) (ready : Bool) (now : ℤ) (t : Trial F R T)
      → IsStaged t
      → Ensures (λ done. IsStaged done.1) (wait_step deadline ready now t)
  unfolding wait_step
  wait_step-IsStaged deadline true now t h =
      Ensures-then (λ m. IsStaged m.1) _ (moved t (mark_ready t.lifecycle now)) _
        (moved-IsStaged t (mark_ready t.lifecycle now) h
          (mark_ready-AfterPlain (is_healthy_control s) t.lifecycle now h.stage h.reached))
        λ m staged. staged
  wait_step-IsStaged deadline false now t h = elim (Bool-cases (leb_ℤ deadline now)) [
    | inl late ↦ rw late (
        Ensures-then (λ m. IsStaged m.1) _ (moved t (fail t.lifecycle "readiness timeout")) _
          (moved-IsStaged t (fail t.lifecycle "readiness timeout") h (
            fail-AfterPlain (is_healthy_control s) t.lifecycle "readiness timeout" h.stage
              h.reached))
          λ m staged. staged)
    | inr early ↦ rw early h
  ]

  wait_round-IsStaged :
      (deadline : ℤ) (w : Waiting T) (t : Trial F R T)
      → IsStaged t
      → Ensures (λ done. IsStaged done.1) (wait_round deadline w t)
  unfolding wait_round
  wait_round-IsStaged deadline w t h =
      Ensures-then IsStaged _ (spin_once w.callback t) _ (spin_once-IsStaged w.callback t h)
        λ u staged. wait_step-IsStaged deadline w.is_ready w.now u staged

  wait_loop-Staged :
      (deadline : ℤ) (ws : List (Waiting T)) (t : Trial F R T)
      → IsStaged t
      → Ensures MaybeStaged (wait_loop deadline ws t)
  unfolding wait_loop
  wait_loop-Staged deadline [] t h = elim (Bool-cases (is_starting t.lifecycle.state)) [
    | inl waiting ↦ rw waiting tt
    | inr passed ↦ rw passed h
  ]
  wait_loop-Staged deadline (w ∷ ws) t h = elim (Bool-cases (is_starting t.lifecycle.state)) [
    | inr passed ↦ rw passed h
    | inl waiting ↦ rw waiting (
        Ensures-then (λ done. IsStaged done.1) MaybeStaged (wait_round deadline w t) _
          (wait_round-IsStaged deadline w t h)
          (proceed-Staged (wait_loop deadline ws) (wait_loop-Staged deadline ws)))
  ]

  drain-IsStaged :
      (cs : List (Callback T)) (t : Trial F R T) → IsStaged t → Ensures IsStaged (drain cs t)
  unfolding drain
  drain-IsStaged [] t h = h
  drain-IsStaged (c ∷ cs) t h =
      Ensures-then IsStaged IsStaged (spin_once c t) _ (spin_once-IsStaged c t h)
        λ u staged. drain-IsStaged cs u staged

  finished_lem :
      (t : Trial F R T)
      → IsStaged t
      → Ensures IsStaged (moved t (finish t.lifecycle) >>= λ m. ok m.1)
  finished_lem t h =
      Ensures-then (λ m. IsStaged m.1) IsStaged (moved t (finish t.lifecycle)) _
        (moved-IsStaged t (finish t.lifecycle) h
          (finish-AfterPlain (is_healthy_control s) t.lifecycle h.stage h.reached))
        λ m staged. staged

  close_in-IsStaged :
      (state : LifecycleState) (t : Trial F R T) → IsStaged t → Ensures IsStaged (close_in state t)
  unfolding close_in
  close_in-IsStaged finalizing t h = finished_lem t h
  close_in-IsStaged _ t h = h

  continue-Staged :
      (next : Trial F R T → Result (Option (Trial F R T)))
      → ((t : Trial F R T) → IsStaged t → Ensures MaybeStaged (next t))
      → (o : Option (Trial F R T)) → MaybeStaged o
      → Ensures MaybeStaged (continue next o)
  continue-Staged next k none h = tt
  continue-Staged next k (some t) h = k t h

  end-Staged :
      (cs : List (Callback T)) (o : Option (Trial F R T))
      → MaybeStaged o
      → Ensures MaybeStaged (end cs o)
  end-Staged cs none h = tt
  end-Staged cs (some t) h =
      Ensures-then IsStaged MaybeStaged (drain cs t) _ (drain-IsStaged cs t h) λ u drained.
        Ensures-then IsStaged MaybeStaged (close_in u.lifecycle.state u) _
          (close_in-IsStaged u.lifecycle.state u drained) λ v closed. closed

  start-Staged :
      (now : ℤ) (node : FaultInjectorNode F R T)
      → let t : Trial F R T = record { lifecycle = init s; injector = node; applied = [] } in
        Ensures (λ m. IsStaged m.1) (moved t (start (init s) now))
  unfolding start init
  start-Staged now node = record { stage = 0; reached = (refl, refl); applied = refl }

  run_nodes-Staged :
      (now later : ℤ) (ws : List (Waiting T)) (rs : List (Round T)) (cs : List (Callback T))
      (node : FaultInjectorNode F R T)
      → Ensures MaybeStaged (run_nodes s seed now later ws rs cs node)
  unfolding run_nodes
  run_nodes-Staged now later ws rs cs node =
      let t : Trial F R T = record { lifecycle = init s; injector = node; applied = [] } in
      let timeout =
        f.trunc (f.mul s.experiment.readiness_timeout_sec (f.of_int (pos nanos_per_sec))) in
      Ensures-then (λ m. IsStaged m.1) MaybeStaged (moved t (start (init s) now)) _
        (start-Staged now node)
        λ m started. Ensures-bind MaybeStaged timeout _ λ length _.
          Ensures-then MaybeStaged MaybeStaged (wait_loop (later +ℤ length) ws m.1) _
            (wait_loop-Staged (later +ℤ length) ws m.1 started)
            λ o waited.
              Ensures-then MaybeStaged MaybeStaged (continue (main_loop s seed rs) o) _
                (continue-Staged (main_loop s seed rs) (main_loop-Staged rs) o waited)
                λ p looped. end-Staged cs p looped

  -- What the loops of a trial give to `apply_config`, whatever the spins run and whatever the readings
  -- of the clock, when the trial ends without an exception: nothing, or the configuration that is
  -- built of the scenario, with revision 1, or that and then the disabled one with the same seed and
  -- revision 2. For a healthy control it is nothing.
  pub configurations_in_order :
      (now later : ℤ) (ws : List (Waiting T)) (rs : List (Round T)) (cs : List (Callback T))
      (node : FaultInjectorNode F R T) (t : Trial F R T)
      → run_nodes s seed now later ws rs cs node ≡ ok (some t)
      → (k : ℕ) × AreApplied s seed k t.applied × (is_healthy_control s ≡ true → k ≡ 0)
  configurations_in_order now later ws rs cs node t ran =
      let h = subst (Ensures MaybeStaged) ran (run_nodes-Staged now later ws rs cs node) in
      (h.stage, h.applied, applied_by (is_healthy_control s) t.lifecycle h.stage h.reached)
