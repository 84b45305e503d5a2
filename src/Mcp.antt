-- ===== src/Mcp.antt =====
-- The MCP crate: crates/godwit-mcp/src.
pub mod Framing
pub mod Registry
pub mod Server
pub mod Client
