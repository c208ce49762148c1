-- ===== src/Tests.antt =====
-- Concrete inputs: each theorem of the list in Lib.antt that has hypotheses, applied where they hold.
pub mod Numbers
pub mod Queue
pub mod Injector
pub mod Monitor
pub mod Trial
pub mod Robot
pub mod Judgement
pub mod Parsing
pub mod Nodes
pub mod Batches
pub mod Loops
pub mod Stops
pub mod Observing
