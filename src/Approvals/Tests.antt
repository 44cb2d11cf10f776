-- ===== src/Approvals/Tests.antt =====
-- Approvals at work: one workflow, and the approval of one document.
pub mod Conditions
pub mod Route
pub mod Decisions
pub mod Votes
pub mod Ending
