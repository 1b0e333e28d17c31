-- ===== src/Mcp.antt =====
-- The package packages/mcp-gateway: the governance of tools, and the gateway that routes calls.
pub mod AllowList
pub mod Server
pub mod Client
pub mod Invocation
pub mod Gateway
mod Tests
