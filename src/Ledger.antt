-- ===== src/Ledger.antt =====
-- The budget ledger: apps/api/src/flo/modules/budget. The children define the tables and the
-- commands; the children of those prove what the commands keep.
pub mod Types
pub mod Tables
pub mod Constraints
pub mod Settings
pub mod Post
pub mod Reservations
pub mod Postings
pub mod Paths
pub mod Transfers
pub mod Commands
pub mod Tests
