-- ===== src/Tests/Robot.antt =====
-- A robot that is driven and stopped: robot/model.py.
use ros2_resilience.Prelude.{pos, ◌≡◌, List, [], ◌∷◌}
use ros2_resilience.Python.Result.{ok}
use ros2_resilience.Python.Value.{integer, floating, text}
use ros2_resilience.Robot.Model.{Trigonometry, RobotModel}
use ros2_resilience.Robot.Model.Commands.{Call, run_calls, last_command, velocity-last_command}
use ros2_resilience.Tests.Numbers.{Fixed, finite, infinite, Fixed-Float}

-- the functions near an angle of zero
instance unfoldable pub Fixed-Trigonometry : Trigonometry Fixed
Fixed-Trigonometry = record {
  sin = λ t. ok t;
  cos = λ t. ok (finite (pos 1_000_000_000));
  atan2 = λ y x. y;
}

abbrev pub robot : RobotModel Fixed
robot = record {
  pose = record { x = finite (pos 0); y = finite (pos 0); theta = finite (pos 0) };
  velocity = record { linear_x = finite (pos 200_000_000); angular_z = finite (pos 0) };
}

abbrev calls : List (Call Fixed)
calls =
    Call.step (floating (finite (pos 50_000_000)))
    ∷ Call.set_command (integer (pos 0)) (integer (pos 0))
    ∷ Call.set_command (floating infinite) (text "left")
    ∷ Call.step (floating (finite (pos 50_000_000)))
    ∷ []

velocity-last_command_example : (run_calls calls robot).velocity ≡ last_command calls robot.velocity
velocity-last_command_example = velocity-last_command calls robot
