-- ===== src/Faults.antt =====
-- ros2_resilience/faults: the fault modes and the injector that selects one of them.
pub mod Random
pub mod Clock
pub mod Dropout
pub mod Stale
pub mod Latency
pub mod Config
pub mod Injector
