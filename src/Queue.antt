-- ===== src/Queue.antt =====
-- The queue of a run's jobs (apps/control-plane/src/runs/queue.ts and runs.ts): the rows of one
-- run, the limits that end it, and the operations of runners on its jobs.
pub mod Rows
pub mod Limits
pub mod Findings
pub mod Plan
pub mod Jobs
pub mod Events
pub mod Assign
pub mod Claim
pub mod Again
pub mod Invariant
pub mod Calls
pub mod Steps
pub mod Pause
pub mod Start
pub mod Sweeps
pub mod Channel
pub mod Tests
