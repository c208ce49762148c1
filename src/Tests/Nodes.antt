-- ===== src/Tests/Nodes.antt =====
-- The nodes with a clock that goes back, a watchdog that sees silence, and a robot that is stopped:
-- ros/fault_injector_node.py, ros/watchdog_node.py and ros/robot_node.py.
use ros2_resilience.Prelude.{
  ℕ, pos, ◌+◌, ◌≡◌, ◌≢◌, refl, true, false, List, [], ◌∷◌, some, none, All,
}
use ros2_resilience.Python.Value.{in_unit_range}
use ros2_resilience.Python.Result.{raise, type_error, ok, Ensures}
use ros2_resilience.Faults.Config.{FaultConfig, FaultType}
use ros2_resilience.Faults.Injector
use ros2_resilience.Faults.Injector.{pending_count}
use ros2_resilience.Health.Watchdog
use ros2_resilience.Ros.Messages.{Odometry, stop}
use ros2_resilience.Ros.InjectorNode
use ros2_resilience.Ros.InjectorNode.{FaultInjectorNode}
use ros2_resilience.Ros.InjectorNode.Running
use ros2_resilience.Ros.InjectorNode.Running.{accepted, run, published, AreCalm, run-conserves}
use ros2_resilience.Ros.WatchdogNode
use ros2_resilience.Ros.WatchdogNode.{Output, report}
use ros2_resilience.Ros.WatchdogNode.Latching
use ros2_resilience.Ros.WatchdogNode.Latching.{commands, checks, stop_repeats}
use ros2_resilience.Ros.Recovery
use ros2_resilience.Ros.Recovery.{System, next, after, odometries, IsStill, robot_stays_stopped}
use ros2_resilience.Tests.Numbers.{Fixed, finite, Fixed-Float, Fixed-IsFloat, ℕ-Random, ℕ-IsRandom}
use ros2_resilience.Tests.Monitor.{watchdog, late}
use ros2_resilience.Tests.Robot.{robot, Fixed-Trigonometry}

abbrev latency_config : FaultConfig Fixed
latency_config = record {
  enabled = true;
  fault_type = FaultType.latency;
  drop_probability = finite (pos 0);
  delay_ns = 5;
  jitter_ns = 2;
  seed = 9;
}

-- the node that is made at the time 100
abbrev pub node : FaultInjectorNode Fixed ℕ ℕ
node = record {
  injector = record {
    config = InjectorNode.default_config;
    max_pending = 1000;
    external_rng = false;
    rng = 0;
    dropper = record { probability = finite (pos 0) };
    queue = record {
      delay_ns = 0;
      jitter_ns = 0;
      max_pending = 1000;
      entries = [];
      last_time_ns = none;
      next_sequence = 0;
    };
    hold = record { enabled = false; latest = none; held = none };
    last_time_ns = none;
    received = 0;
    forwarded = 0;
    dropped = 0;
  };
  revision = 0;
  last_ns = 100;
}

node_lem : InjectorNode.init ℕ 100 ≡ ok node
unfolding InjectorNode.init Injector.init Fixed-Float ℕ-Random in_unit_range
node_lem = refl

abbrev handlers : List (Running.Call Fixed ℕ)
handlers =
    Running.Call.on_input (ok 7) 101
    ∷ Running.Call.apply_config latency_config 1 103
    ∷ Running.Call.on_input (ok 8) 102
    ∷ Running.Call.on_input (raise type_error) 103
    ∷ Running.Call.on_poll 104
    ∷ Running.Call.on_poll 120
    ∷ []

zero_proper : in_unit_range {F = Fixed} (finite (pos 0)) ≡ true
unfolding in_unit_range Fixed-Float
zero_proper = refl

run-conserves_example :
    let end = (run handlers node).1 in
    AreCalm handlers node
    × (accepted handlers node
        ≡ published (run handlers node).0 + end.injector.dropped + pending_count end.injector)
unfolding Fixed-Float
run-conserves_example =
    run-conserves ℕ-IsRandom Fixed-IsFloat 100 zero_proper node_lem handlers
      (tt, (zero_proper, (tt, (tt, (tt, (tt, tt))))))

abbrev outputs : List (Output Fixed)
outputs = report (record {
  violated = true;
  reason = some Watchdog.message_age_exceeded;
  age_sec = some (finite (pos 700_000_000));
  loss_fraction = some (finite (pos 833_333_334));
})

check_lem : WatchdogNode.on_check watchdog (pos 1_600_000_000) ≡ (ok outputs, late)
unfolding WatchdogNode.on_check Watchdog.check Fixed-Float
check_lem = refl

not_empty : commands outputs ≢ []
unfolding report
not_empty h = cc

sample : Odometry Fixed
sample = record {
  stamp = record { sec = pos 1; nanosec = 700_000_000 };
  x = finite (pos 0);
  y = finite (pos 0);
  orientation_z = finite (pos 0);
  orientation_w = finite (pos 1_000_000_000);
  twist = stop;
}

stop_repeats_example : All (Ensures (λ outs. commands outs ≡ stop ∷ [])) (
    checks
      (Latching.Call.on_input sample (pos 1_700_000_000)
        ∷ Latching.Call.on_check (pos 1_710_000_000)
        ∷ [])
      late)
stop_repeats_example = stop_repeats watchdog late (pos 1_600_000_000) outputs check_lem not_empty _

abbrev system : System Fixed
system = record {
  watchdog = watchdog;
  robot = record { model = robot; dt_sec = finite (pos 50_000_000) };
  commands_sent = [];
}

abbrev silence : List (Recovery.Event Fixed)
silence =
    Recovery.Event.robot_publishes (record { sec = pos 1; nanosec = 0 })
    ∷ Recovery.Event.watchdog_checks (pos 1_600_000_000)
    ∷ []

sent_lem : (after silence system).commands_sent ≡ stop ∷ []
unfolding after next WatchdogNode.on_check Watchdog.check report Fixed-Float
sent_lem = refl

robot_stays_stopped_example : All (Ensures IsStill) (
    odometries
      (Recovery.Event.robot_publishes (record { sec = pos 2; nanosec = 0 })
        ∷ Recovery.Event.watchdog_checks (pos 1_650_000_000)
        ∷ Recovery.Event.command_arrives
        ∷ Recovery.Event.robot_publishes (record { sec = pos 2; nanosec = 50_000_000 })
        ∷ [])
      (next Recovery.Event.command_arrives (after silence system)))
unfolding Fixed-Float
robot_stays_stopped_example = robot_stays_stopped silence system stop [] refl refl sent_lem _
