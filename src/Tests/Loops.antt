-- ===== src/Tests/Loops.antt =====
-- The loops of a dropout trial, from the start to the last step: ros/experiment_runner_node.py.
use ros2_resilience.Prelude.{ℕ, pos, ◌-ℤ◌, ◌≡◌, refl, true, Option, some, List, [], ◌∷◌}
use ros2_resilience.Python.Float.{seconds_to_ns}
use ros2_resilience.Python.Result.{Result, ok}
use ros2_resilience.Python.Value.{in_unit_range}
use ros2_resilience.Core.Scenario.{is_healthy_control}
use ros2_resilience.Core.Experiment.{init}
use ros2_resilience.Faults.Clock.{validate_time}
use ros2_resilience.Faults.Injector.{configure}
use ros2_resilience.Ros.Runner.{build}
use ros2_resilience.Ros.TrialLoop.{nothing, on_config_applied, Waiting, Round, Trial, run_nodes}
use ros2_resilience.Ros.TrialLoop.Configurations.{AreApplied, configurations_in_order}
use ros2_resilience.Tests.Numbers.{Fixed, Fixed-Float, ℕ-Random}
use ros2_resilience.Tests.Nodes.{node}
use ros2_resilience.Tests.Trial.{scenario}

abbrev waiting : List (Waiting ℕ)
waiting = record { callback = nothing; is_ready = true; now = pos 1_000_000_000 } ∷ []

abbrev rounds : List (Round ℕ)
rounds =
    record { callback = nothing; now = pos 4_000_000_000; clock = 103 }
    ∷ record {
      callback = on_config_applied (pos 1) (pos 4_100_000_000);
      now = pos 4_200_000_000;
      clock = 104;
    }
    ∷ record { callback = nothing; now = pos 6_200_000_000; clock = 106 }
    ∷ record { callback = nothing; now = pos 10_200_000_000; clock = 107 }
    ∷ []

abbrev taken : Result (Option (Trial Fixed ℕ ℕ)) → Trial Fixed ℕ ℕ
taken (ok (some t)) = t
taken _ = record { lifecycle = init scenario; injector = node; applied = [] }

abbrev ended : Trial Fixed ℕ ℕ
ended = taken (run_nodes scenario 42 (pos 0) (pos 1) waiting rounds [] node)

ended_lem : run_nodes scenario 42 (pos 0) (pos 1) waiting rounds [] node ≡ ok (some ended)
unfolding Fixed-Float ℕ-Random in_unit_range seconds_to_ns run_nodes validate_time ◌-ℤ◌ build
    configure
ended_lem = refl

configurations_in_order_example :
    (k : ℕ) × AreApplied scenario 42 k ended.applied × (is_healthy_control scenario ≡ true → k ≡ 0)
configurations_in_order_example =
    configurations_in_order scenario 42 (pos 0) (pos 1) waiting rounds [] node ended ended_lem
