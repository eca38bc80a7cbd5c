-- ===== src/Runtime/Producers.antt =====
-- runtime/completion_evidence_producers.py: what LBE itself observes of a workspace, as evidence for the
-- completion of a task.
pub mod Commands
pub mod Snapshots
pub mod Classify
pub mod Produce
pub mod Sound
pub mod Passing
pub mod Tested
mod Examples
