-- ===== src/Protocol.antt =====
-- What the control plane and the runners share (packages/protocol/src).
pub mod Groups
pub mod Types
pub mod Turns
pub mod Story
mod Tests
