-- ===== src/Projects.antt =====
-- Projects: apps/api/src/flo/modules/projects.
pub mod Lifecycle
pub mod Tests
