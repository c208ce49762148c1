-- ===== src/Ros.antt =====
-- The nodes of ros2_resilience/ros. What a handler publishes is what it returns, in order; a reading
-- of a clock is an argument of the handler that takes it.
pub mod Messages
pub mod InjectorNode
pub mod WatchdogNode
pub mod RobotNode
pub mod Recovery
pub mod Runner
pub mod TrialLoop
pub mod Observer
