-- ===== src/Core.antt =====
-- ros2_resilience/core: the scenario, the trial's lifecycle, its evidence and the verdict.
pub mod Scenario
pub mod Fields
pub mod Sections
pub mod Validation
pub mod Accepted
pub mod Serialized
pub mod Experiment
pub mod Events
pub mod Metrics
pub mod Evidence
pub mod Checks
pub mod Assertions
pub mod Verdict
pub mod Complete
pub mod Batch
pub mod Results
pub mod Documents
