-- ===== src/Mcp.antt =====
-- crates/gateway-mcp/src: policies on tools, the registry of servers, the check of discovered tools,
-- and the invocation of a tool.
pub mod Errors
pub mod Policy
pub mod Server
pub mod Discovery
pub mod Registry
pub mod Calls
pub mod Consent
pub mod Outcome
pub mod Invocation
