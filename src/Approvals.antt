-- ===== src/Approvals.antt =====
-- Approvals: apps/api/src/flo/modules/approvals.
pub mod Values
pub mod Conditions
pub mod Grammar
pub mod Validation
pub mod Graph
pub mod Tables
pub mod Members
pub mod Evidence
pub mod Steps
pub mod Engine
pub mod Writes
pub mod Decisions
pub mod Material
pub mod Consistent
pub mod Tests
