-- ===== src/Mcp.antt =====
-- What an MCP client may start (apps/control-plane/src/mcp).
pub mod Limits
mod Tests
