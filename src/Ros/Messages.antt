-- ===== src/Ros/Messages.antt =====
-- The parts of the ROS messages that ros2_resilience/ros reads and writes.
use ros2_resilience.Prelude.{ℕ, ◌+◌, ◌*◌, ℤ, pos_part, neg_part, sub_ℕ, String, Option}
use ros2_resilience.Python.Float.{Float, nought, nanos_per_sec}

-- `builtin_interfaces/Time`
pub record Time : Type 0 where
  pub sec : ℤ
  pub nanosec : ℕ

-- `sec * 1_000_000_000 + nanosec`
abbrev pub stamp_ns : Time → ℤ
stamp_ns t = sub_ℕ (pos_part t.sec * nanos_per_sec + t.nanosec) (neg_part t.sec * nanos_per_sec)

-- `geometry_msgs/Twist`, planar
pub record Twist (F : Type 0) : Type 0 where
  pub linear_x : F
  pub angular_z : F

-- `nav_msgs/Odometry`, planar; the orientation is a quaternion about the vertical
pub record Odometry (F : Type 0) : Type 0 where
  pub stamp : Time
  pub x : F
  pub y : F
  pub orientation_z : F
  pub orientation_w : F
  pub twist : Twist F

-- `diagnostic_msgs/DiagnosticStatus` of the watchdog; its texts of numbers are kept as the numbers
pub record Diagnostic (F : Type 0) : Type 0 where
  pub message : String
  pub age_sec : Option F
  pub loss_fraction : Option F

-- `Twist()`
abbrev pub stop : {F : Type 0} ⦃f : Float F⦄ → Twist F
stop = record { linear_x = nought; angular_z = nought }
