-- ===== src/Runner.antt =====
-- The runner (apps/runner/src): the events of a job on their way to the queue, a round of its
-- worker, and the proxy of its browsers.
pub mod Events
pub mod Link
pub mod Calls
pub mod Work
pub mod Proxy
mod Tests
