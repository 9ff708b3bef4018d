-- ===== src/Ci.antt =====
-- The client that waits for a run in a CI job (apps/ci/src).
pub mod Decision
pub mod Wait
mod Tests
