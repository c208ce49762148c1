-- ===== src/Tests/Observing.antt =====
-- An observer that sees a few messages: ros/experiment_runner_node.py.
use ros2_resilience.Prelude.{ℕ, ℤ, pos, ◌≡◌, refl, String, Option, some, List, [], ◌∷◌}
use ros2_resilience.Ros.Messages.{Twist}
use ros2_resilience.Ros.Observer.{Message, command, recovery, counters, applied, observe_all, init}
use ros2_resilience.Ros.Observer.Identifiers.{AreDistinct, observe_all-AreDistinct}
use ros2_resilience.Tests.Numbers.{Fixed}
use ros2_resilience.Tests.Trial.{milli}

abbrev twist : Twist Fixed
twist = record { linear_x = milli 200; angular_z = milli 0 }

abbrev two_counted : String → Option ℤ
two_counted text = some (pos 2)

abbrev messages : List (Message Fixed × ℕ)
messages = (command twist, 5) ∷ (applied (pos 1), 8) ∷ (counters [], 9) ∷ (recovery, 9) ∷ []

calls_lem : (observe_all two_counted messages (init "5e1f-0000")).1 ≡ (pos 1, 8) ∷ []
unfolding observe_all
calls_lem = refl

observe_all-AreDistinct_example :
    AreDistinct (observe_all two_counted messages (init "5e1f-0000")).0
observe_all-AreDistinct_example = observe_all-AreDistinct two_counted "5e1f-0000" messages
