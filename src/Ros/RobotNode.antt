-- ===== src/Ros/RobotNode.antt =====
-- ros2_resilience/ros/robot_node.py: the handlers of the node around a robot model.
use ros2_resilience.Prelude.{pos, if◌then◌else◌}
use ros2_resilience.Python.Float.{Float, nought, one}
use ros2_resilience.Python.Result.{Result, ok, raise, zero_division, ◌>>=◌}
use ros2_resilience.Python.Value.{floating}
use ros2_resilience.Robot.Model
use ros2_resilience.Robot.Model.{Trigonometry, Pose, Velocity, RobotModel}
use ros2_resilience.Ros.Messages.{Time, Twist, Odometry}

pub record RobotNode (F : Type 0) : Type 0 where
  pub model : RobotModel F
  pub dt_sec : F

module _ {F : Type 0} ⦃f : Float F⦄ where
  -- `1.0 / rate_hz`
  abbrev period : F → Result F
  period rate_hz = if f.eqb rate_hz nought then raise zero_division else ok (f.div one rate_hz)

  -- `__init__`, on the values of the node's parameters
  unfoldable pub init : F → F → F → Result (RobotNode F)
  unfolding Model.init
  init rate_hz linear_x angular_z = do
    model ← Model.init (floating linear_x) (floating angular_z)
    dt ← period rate_hz
    ok (record { model = model; dt_sec = dt })

  -- `_on_command`
  unfoldable pub on_command : RobotNode F → Twist F → Result (RobotNode F)
  unfolding Model.set_command
  on_command n msg = do
    model ← Model.set_command n.model (floating msg.linear_x) (floating msg.angular_z)
    ok (record n { model = model })

  module _ ⦃trig : Trigonometry F⦄ where
    -- the message of `_on_timer`
    unfoldable pub odometry : RobotModel F → Time → Result (Odometry F)
    odometry m stamp = do
      let half = f.div m.pose.theta (f.of_int (pos 2))
      z ← trig.sin half
      w ← trig.cos half
      ok (record {
        stamp = stamp;
        x = m.pose.x;
        y = m.pose.y;
        orientation_z = z;
        orientation_w = w;
        twist = record { linear_x = m.velocity.linear_x; angular_z = m.velocity.angular_z };
      })

    -- `_on_timer`, once `step` has returned or raised
    unfoldable pub publish :
        RobotNode F → Time → Result (RobotModel F) → Result (Odometry F) × RobotNode F
    unfolding odometry
    publish n stamp (raise e) = (raise e, n)
    publish n stamp (ok model) = (odometry model stamp, record n { model = model })

    -- `_on_timer`, at a reading of the node's clock
    unfoldable pub on_timer : RobotNode F → Time → Result (Odometry F) × RobotNode F
    unfolding publish Model.step
    on_timer n stamp = publish n stamp (Model.step n.model (floating n.dt_sec))
