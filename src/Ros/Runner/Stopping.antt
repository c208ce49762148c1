-- ===== src/Ros/Runner/Stopping.antt =====
-- From the record of a passed trial of ros/experiment_runner_node.py to its events.
use mathlib.Core.Path.{subst}
use ros2_resilience.Prelude.{
  ℕ, ℤ, ◌≡◌, sym, ◌∙◌, Bool-cases, inl, inr, true, ◌&&◌, String, Option, some, List, All, any,
}
use ros2_resilience.Python.Float.{Float, IsFloat}
use ros2_resilience.Python.Result.{ok, Ensures, Ensures-bind}
use ros2_resilience.Core.Assertions.{
  evaluate_scenario, evaluate_fault_scenario, evaluate_healthy_control, stopped_results,
  check_robot_stopped, check_robot_stopped_held, robot_results, check_recovery_command_published,
  check_recovery_command_observed,
}
use ros2_resilience.Core.Checks.{
  AssertionResult, Timeline, assert_set, check_fault_observable, check_watchdog_violation_detected,
  first_violation_receipt_ns,
}
use ros2_resilience.Core.Events.{Event, raw_odometry}
use ros2_resilience.Core.Metrics.{stopped_from}
use ros2_resilience.Core.Results.{TrialResult}
use ros2_resilience.Core.Scenario.{ScenarioConfig, RobotExpectation, is_healthy_control}
use ros2_resilience.Core.Verdict.{within, stopped_in_time}
use ros2_resilience.Ros.Runner.{Execution, timeline_of, run_trial}
use ros2_resilience.Ros.Runner.Passing.{passed_means}

module _ {F : Type 0} ⦃f : Float F⦄ where
  -- if all results passed, the robot stopped in time
  abbrev Stops : RobotExpectation F → List (Event F) → Timeline → List (AssertionResult F) → Type 0
  Stops robot events timeline rs =
      All (λ r. r.passed ≡ true) rs → (check_robot_stopped robot events timeline).passed ≡ true

  robot_results-Stops :
      (s : ScenarioConfig F) (o : Option (RobotExpectation F)) (robot : RobotExpectation F)
      (events : List (Event F)) (timeline : Timeline)
      → o ≡ some robot
      → Ensures (Stops robot events timeline) (robot_results s o events timeline)
  unfolding robot_results
  robot_results-Stops s o robot events timeline set =
      rw set
        (Ensures-bind _ (check_robot_stopped_held s robot events timeline) _ λ held _ all. all.0)

  fault-Stops :
      (s : ScenarioConfig F) (robot : RobotExpectation F) (events : List (Event F))
      (timeline : Timeline)
      → s.expect.robot ≡ some robot
      → Ensures (Stops robot events timeline) (evaluate_fault_scenario s events timeline)
  unfolding evaluate_fault_scenario
  fault-Stops s robot events timeline set =
      let d = first_violation_receipt_ns events timeline.activation_ns in
      Ensures-bind _ (assert_set s.expect.fault) _ λ _ _.
        Ensures-bind _ (assert_set s.expect.watchdog) _ λ _ _.
          Ensures-bind _ (assert_set s.expect.recovery) _ λ _ _.
            Ensures-bind _ (check_fault_observable s events timeline) _ λ r1 _.
              Ensures-bind _ (check_watchdog_violation_detected s events timeline) _ λ r2 _.
                Ensures-bind _ (check_recovery_command_published s events d) _ λ r3 _.
                  Ensures-bind _ (check_recovery_command_observed s events d) _ λ r4 _.
                    Ensures-bind _ (robot_results s s.expect.robot events timeline) _ λ rs same all.
                      subst (Ensures (Stops robot events timeline)) same
                        (robot_results-Stops s s.expect.robot robot events timeline set)
                        all.1.1.1.1.1

  evaluate-Stops :
      (s : ScenarioConfig F) (robot : RobotExpectation F) (events : List (Event F))
      (timeline : Timeline)
      → s.expect.robot ≡ some robot
      → Ensures (Stops robot events timeline) (evaluate_scenario s events timeline)
  unfolding evaluate_scenario evaluate_healthy_control stopped_results
  evaluate-Stops s robot events timeline set = elim (Bool-cases (is_healthy_control s)) [
    | inl control ↦ rw control (rw set (λ all. all.1.1.0))
    | inr faulty ↦ rw faulty (fault-Stops s robot events timeline set)
  ]

  -- If a trial is recorded as passed and its scenario has an expectation of the robot, then some raw
  -- odometry sample among the recorded events is under both velocity thresholds, and was received from
  -- the activation on and within the expected time of it.
  pub passed-stopped :
      (floats : IsFloat F) (execute : Execution F) (s : ScenarioConfig F) (id : String) (index : ℕ)
      (seed : ℤ) (r : TrialResult F) (robot : RobotExpectation F)
      → run_trial execute s id index seed ≡ ok r
      → r.passed ≡ true
      → s.expect.robot ≡ some robot
      → (activation : ℤ) × (r.activation_ns ≡ some activation)
        × (any
              (λ e.
                stopped_from raw_odometry activation robot.linear_velocity_below_mps
                  robot.angular_velocity_below_rad_s e
                && within activation robot.within_sec e)
              r.events
            ≡ true)
  passed-stopped floats execute s id index seed r robot ran passed set =
      let (t, executed, p) = passed_means execute s id index seed r ran passed in
      let timeline = timeline_of t p.activation in
      let stopped =
        subst (Ensures (Stops robot r.events timeline)) p.judged
          (evaluate-Stops s robot r.events timeline set) p.all_passed in
      (
        p.activation,
        p.activation_recorded,
        sym (stopped_in_time floats robot r.events timeline) ∙ stopped,
      )
