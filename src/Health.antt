-- ===== src/Health.antt =====
-- ros2_resilience/health: the watchdog.
pub mod Watchdog
