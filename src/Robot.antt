-- ===== src/Robot.antt =====
-- ros2_resilience/robot: the simulated robot.
pub mod Model
