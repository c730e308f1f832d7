-- ===== src/Mcp/Outcome.antt =====
-- crates/gateway-mcp/src/invocation.rs: what follows the call of a tool, after its result or its
-- failure.
use tuenel.Prelude.{
  ℕ, String, Bool, true, ◌||◌, Result, ok, err, Exec, ◌>>=◌, ◌>>◌, lift, pure, ok_or, if◌then◌else◌,
  string_eq, nat_eq,
}
use tuenel.Prelude.Maps.{insert}
use tuenel.Types.Json.{bool}
use tuenel.Types.Security.{
  SecurityAction, allow, warn, redact, require_approval, block, InspectionContent, prompt_text,
  structured_input, tool_arguments, tool_result, model_output,
}
use tuenel.Types.Mcp.{GatewayMcpResult}
use tuenel.Policy.{exceeds}
use tuenel.Approval
use tuenel.Approval.{
  ApprovalService, ApprovalError, ExecutionClaim, claimed, completed, indeterminate,
  authorize_retry, create,
}
use tuenel.Mcp.Errors.{McpError, tool_not_allowed, invalid, too_large}
use tuenel.Mcp.Calls.{
  McpCodec, McpInvocationService, McpWorld, McpTicks, Call, map_approval, is_block,
  is_require_approval, on_approval, on_enforcer, usage_event, record_usage, audit, with_reference,
  context_for,
}

module _ {R T Q U A E Z : Type 0} (c : McpCodec) (m : McpInvocationService R T Q U A E Z)
    (ticks : McpTicks R T) where
  -- The result that the action of its inspection leaves.
  abbrev pub passed_result :
      SecurityAction → InspectionContent → GatewayMcpResult → Result McpError GatewayMcpResult
  passed_result redact (tool_result value) result = ok_or (c.result_from_value value) invalid
  passed_result redact (prompt_text v) result = ok result
  passed_result redact (structured_input v) result = ok result
  passed_result redact (tool_arguments v) result = ok result
  passed_result redact (model_output v) result = ok result
  passed_result warn content result =
      ok (record result { metadata = insert result.metadata "security_warning" (bool true) })
  passed_result allow content result = ok result
  passed_result block content result = err tool_not_allowed
  passed_result require_approval content result = err tool_not_allowed

  abbrev pub is_stopped : SecurityAction → Bool
  is_stopped a = is_block a || is_require_approval a

  -- The inspection of a result; one that is stopped is recorded as such.
  unfoldable pub inspect_result :
      Call → ℕ → GatewayMcpResult → Exec (McpWorld R T Q U A E Z) McpError GatewayMcpResult
  inspect_result call bytes result = do
    value ← lift (ok_or (c.result_to_value result) invalid)
    seen ← on_enforcer c m ticks (
        m.assess (context_for c m ticks call.request_id call.principal call.risk "mcp_result")
          (tool_result value))
    λ w. (
      passed_result seen.1 seen.0 result,
      if is_stopped seen.1
          then record_usage c m ticks
              (usage_event c m ticks call.request_id call.principal call.invocation call.risk
                call.request_bytes bytes call.needs_approval 0 "result_blocked")
              w
          else w,
    )

  -- The claim of a retry, if the call has a reference, ends with the result.
  unfoldable pub complete_claim :
      Call → GatewayMcpResult → Exec (McpWorld R T Q U A E Z) McpError GatewayMcpResult
  complete_claim call result =
      with_reference c m ticks call.reference
        (λ id key. lift (ok_or (c.result_to_value result) invalid) >>= λ value.
          on_approval c m ticks (map_approval id) (Approval.complete m.approval id key value)
          >>= λ _. pure result)
        (pure result)

  abbrev pub status_of : GatewayMcpResult → String
  status_of result = if result.is_error then "failed" else "succeeded"

  abbrev pub event_of : GatewayMcpResult → String
  event_of result = if result.is_error then "mcp.tool.failed" else "mcp.tool.invoked"

  -- The record of a result that is passed on, whose failure is reported.
  unfoldable pub conclude :
      Call → ℕ → GatewayMcpResult → Exec (McpWorld R T Q U A E Z) McpError GatewayMcpResult
  conclude call bytes passed w =
      let (r, s) =
        m.record_mcp_usage
          (usage_event c m ticks call.request_id call.principal call.invocation call.risk
            call.request_bytes bytes call.needs_approval 1 (status_of passed))
          w.usages in
      let v : McpWorld R T Q U A E Z = record w { usages = s } in
      elim r [
        | err e ↦ (err e, v)
        | ok _ ↦ complete_claim call passed (
            audit c m ticks call.request_id call.principal call.invocation (event_of passed)
              (status_of passed) v)
      ]

  -- What follows a call of the tool that succeeded.
  unfoldable pub finish :
      Call → GatewayMcpResult → Exec (McpWorld R T Q U A E Z) McpError GatewayMcpResult
  finish call result = do
    bytes ← lift (ok_or (c.result_len result) invalid)
    lift (if exceeds call.policy.maximum_response_bytes bytes then err too_large else ok tt)
    passed ← inspect_result call bytes result
    conclude call bytes passed

  -- What follows a call of the tool that failed.
  unfoldable pub failed : Call → McpWorld R T Q U A E Z → McpWorld R T Q U A E Z
  failed call w =
      let v =
        audit c m ticks call.request_id call.principal call.invocation "mcp.tool.failed" "failed" (
          record_usage c m ticks
            (usage_event c m ticks call.request_id call.principal call.invocation call.risk
              call.request_bytes 0 call.needs_approval 0 "failed")
            w) in
      with_reference c m ticks call.reference
        (λ id key. record v { approvals = (Approval.fail m.approval id key true v.approvals).1 }) v
