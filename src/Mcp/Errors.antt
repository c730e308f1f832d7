-- ===== src/Mcp/Errors.antt =====
-- crates/gateway-mcp/src/errors.rs
use tuenel.Types.Approval.{ApprovalId}

pub data McpError : Type 0 where
  server_not_found server_not_allowed tool_not_allowed tool_unavailable quota_exceeded : McpError
  approval_required : ApprovalId → McpError
  approval_rejected approval_expired transport timeout invalid too_large unavailable : McpError
