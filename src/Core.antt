-- ===== src/Core.antt =====
-- The core package (packages/core/src): the loop of an agent and the tools of a session.
pub mod AgentLoop
pub mod Session
pub mod Asks
pub mod Secrets
pub mod PrPlan
mod Tests
