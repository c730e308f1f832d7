-- ===== src/Mcp/Consent.antt =====
-- crates/gateway-mcp/src/invocation.rs: the step of an invocation that asks for an approval or claims
-- one.
use tuenel.Prelude.{
  String, not, Option, none, some, Result, ok, err, Exec, ◌>>=◌, lift, pure, raise, if◌then◌else◌,
  string_eq, nat_eq,
}
use tuenel.Types.Json.{string, object, field, end}
use tuenel.Types.Approval.{ApprovalId, mcp_tool}
use tuenel.Types.Mcp.{GatewayMcpResult}
use tuenel.Approval.{ExecutionClaim, claimed, completed, indeterminate, authorize_retry, create}
use tuenel.Mcp.Errors.{McpError, tool_not_allowed, approval_required, transport, unavailable}
use tuenel.Mcp.Calls.{
  McpCodec, McpInvocationService, McpWorld, McpTicks, Call, map_approval, on_approval, audit,
  with_reference,
}

module _ {R T Q U A E Z : Type 0} (c : McpCodec) (m : McpInvocationService R T Q U A E Z)
    (ticks : McpTicks R T) where
  -- The answer to a claim: a stored result, or none, and the tool is called.
  abbrev pub on_claim : ExecutionClaim → Result McpError (Option GatewayMcpResult)
  on_claim (completed value) = elim (c.result_from_value value) [
    | none ↦ err unavailable
    | some result ↦ ok (some result)
  ]
  on_claim indeterminate = err transport
  on_claim claimed = ok none

  -- A call without an approval asks for one.
  unfoldable pub ask_approval :
      Call → String → Exec (McpWorld R T Q U A E Z) McpError (Option GatewayMcpResult)
  ask_approval call hash = do
    request ←
        on_approval c m ticks (λ _. unavailable)
          (create m.approval c.from_std ticks.approval_now ticks.approval_id call.principal
            call.request_id mcp_tool (c.uuid_text call.invocation.server_id)
            call.invocation.tool_name (object (field "arguments" (string "[SANITIZED]") end))
            call.risk hash)
    λ w. (
      err (approval_required request.approval_id),
      audit c m ticks call.request_id call.principal call.invocation "approval.requested" "pending"
          (audit c m ticks call.request_id call.principal call.invocation
            "mcp.tool.approval_required" "pending" w),
    )

  unfoldable pub retry :
      Call
      → String
      → ApprovalId
      → String
      → Exec (McpWorld R T Q U A E Z) McpError (Option GatewayMcpResult)
  retry call hash id key =
      on_approval c m ticks (map_approval id) (
        authorize_retry m.approval c.is_whitespace ticks.approval_now ticks.approval_later
          call.principal id key hash)
      >>= λ claim. lift (on_claim claim)

  -- The step `if needs_approval`.
  unfoldable pub approve :
      Call → String → Exec (McpWorld R T Q U A E Z) McpError (Option GatewayMcpResult)
  approve call hash =
      if not call.needs_approval
      then pure none
      else if not m.approval_enabled
      then raise tool_not_allowed
      else with_reference c m ticks call.reference (retry call hash) (ask_approval call hash)
