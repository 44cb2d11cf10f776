-- ===== src/Kernel.antt =====
-- The kernel: apps/api/src/flo/kernel, other than money.
pub mod Jobs
pub mod Idempotency
pub mod Tests
