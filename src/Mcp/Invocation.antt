-- ===== src/Mcp/Invocation.antt =====
-- crates/gateway-mcp/src/invocation.rs, McpInvocationService::invoke: the tests before the call of a
-- tool, its quota and its time-out.
pub mod Granted
pub mod Permitted
pub mod Settled
pub mod Kept
pub mod Quota
use Prim.Native.Char.{Char}
use Prim.Native.String.{◌++◌}
use tuenel.Prelude.{
  ℕ, String, Bool, true, false, not, ◌&&◌, ◌||◌, Option, none, some, List, [], ◌∷◌, Result, ok, err,
  Exec, ◌>>=◌, ◌>>◌, lift, pure, raise, ok_or, map_err, continue, find, ltb, if◌then◌else◌, ◌==◌,
  string_eq, nat_eq,
}
use tuenel.Prelude.Maps.{get, insert}
use tuenel.Types.Identity.{Uuid, DateTime, Principal}
use tuenel.Types.Json.{Value, string, bool, object, field, end}
use tuenel.Types.Approval.{ApprovalId, ApprovalResourceType, mcp_tool}
use tuenel.Types.Security.{
  SecurityAction, allow, warn, redact, require_approval, block, InspectionContent, prompt_text,
  structured_input, tool_arguments, tool_result, model_output, InspectionContext,
}
use tuenel.Types.Mcp.{
  McpServerId, ToolRiskLevel, GatewayMcpTool, GatewayMcpInvocation, GatewayMcpResult,
  McpUsageDetails,
}
use tuenel.Policy.{exceeds}
use tuenel.Approval
use tuenel.Approval.{
  ApprovalService, ApprovalError, ExecutionClaim, claimed, completed, indeterminate,
  authorize_retry, create,
}
use tuenel.Events.{AuditRepository, emit}
use tuenel.Mcp.Errors.{
  McpError, tool_not_allowed, tool_unavailable, approval_required, approval_rejected,
  approval_expired, transport, timeout, invalid, too_large, unavailable,
}
use tuenel.Mcp.Policy.{McpPolicy, ValueOps, authorize, action, classify_tool}
use tuenel.Mcp.Registry.{McpRegistry, RegistryWorld, RegistryTicks, server_for, tools, invoke_tool}
use tuenel.Mcp.Calls.{
  McpUsageEvent, McpQuota, ApprovalReference, McpCodec, McpInvocationService, McpWorld, McpTicks,
  Call, map_approval, is_block, is_require_approval, risk_of, inspected_arguments, on_registry,
  on_quota, on_approval, on_enforcer, usage_event, record_usage, audit, with_reference, context_for,
}
use tuenel.Mcp.Consent.{on_claim, ask_approval, retry, approve}
use tuenel.Mcp.Outcome.{
  passed_result, is_stopped, inspect_result, complete_claim, status_of, event_of, conclude, finish,
  failed,
}

module _ {R T Q U A E Z : Type 0} (c : McpCodec) (m : McpInvocationService R T Q U A E Z)
    (ticks : McpTicks R T) where
  -- The call of the tool under its time-out.
  unfoldable pub call_tool : Call → Exec (McpWorld R T Q U A E Z) McpError GatewayMcpResult
  call_tool call w = elim ticks.cut [
    | some servers ↦ (err timeout, record w { servers = servers })
    | none ↦
        on_registry c m ticks
          (invoke_tool m.registry ticks.registry_ticks call.principal call.invocation) w
  ]

  -- The reservation, the call and the release, whose failure is dropped.
  unfoldable pub run : Call → Exec (McpWorld R T Q U A E Z) McpError GatewayMcpResult
  run call = do
    key ← on_quota c m ticks (
        m.quota.reserve call.principal call.invocation.server_id call.invocation.tool_name
          call.policy)
    λ w.
        let (result, v) = call_tool call w in
        let released : McpWorld R T Q U A E Z = record v {
          quotas = (m.quota.release key v.quotas).1;
        } in
        elim result [
          | ok r ↦ finish c m ticks call r released
          | err e ↦ (err e, failed c m ticks call released)
        ]

  -- From the hash of the request on.
  unfoldable pub proceed : Call → Exec (McpWorld R T Q U A E Z) McpError GatewayMcpResult
  proceed call = do
    hash ← lift (ok_or (c.invocation_hash call.invocation) invalid)
    stored ← approve c m ticks call hash
    elim stored [ some result ↦ pure result | none ↦ run call ]

  -- A denial by the policy is recorded and audited.
  unfoldable pub deny :
      Uuid
      → Principal
      → GatewayMcpInvocation
      → ToolRiskLevel
      → ℕ
      → McpWorld R T Q U A E Z
      → McpWorld R T Q U A E Z
  deny request_id p invocation risk bytes w =
      audit c m ticks request_id p invocation "mcp.tool.denied" "policy" (
        record_usage c m ticks
          (usage_event c m ticks request_id p invocation risk bytes 0 false 0 "policy_denied") w)

  -- The call after its arguments were seen.
  abbrev pub new_call :
      Uuid
      → Principal
      → GatewayMcpInvocation
      → ApprovalReference
      → GatewayMcpTool
      → McpPolicy
      → ℕ
      → InspectionContent × SecurityAction
      → Call
  new_call request_id p invocation reference tool policy bytes seen =
      let risk = risk_of c policy tool invocation.tool_name in
      record {
        request_id = request_id;
        principal = p;
        invocation = record invocation {
          arguments = inspected_arguments seen.0 invocation.arguments;
        };
        reference = reference;
        policy = policy;
        risk = risk;
        request_bytes = bytes;
        needs_approval =
            is_require_approval (action policy tool risk) || is_require_approval seen.1;
      }

  -- The tests of the policy and the inspection of the arguments.
  unfoldable pub screen :
      Uuid
      → Principal
      → GatewayMcpInvocation
      → ApprovalReference
      → GatewayMcpTool
      → McpPolicy
      → ℕ
      → Exec (McpWorld R T Q U A E Z) McpError Call
  screen request_id p invocation reference tool policy bytes w =
      let risk = risk_of c policy tool invocation.tool_name in
      elim (authorize c.values policy invocation.server_id invocation.tool_name
        invocation.arguments) [
          | err e ↦ (err e, deny request_id p invocation risk bytes w)
          | ok _ ↦
              if exceeds policy.maximum_request_bytes bytes
              then (err too_large, w)
              else (on_enforcer c m ticks (
                      m.assess (context_for c m ticks request_id p risk "mcp_arguments")
                        (tool_arguments invocation.arguments))
                    >>= λ seen.
                        if is_block seen.1
                        then raise tool_not_allowed
                        else pure
                            (new_call request_id p invocation reference tool policy bytes seen))
                  w
        ]

  unfoldable pub invoke :
      Uuid
      → Principal
      → GatewayMcpInvocation
      → ApprovalReference
      → Exec (McpWorld R T Q U A E Z) McpError GatewayMcpResult
  invoke request_id p invocation reference = do
    on_registry c m ticks (server_for m.registry p invocation.server_id)
    listed ←
        on_registry c m ticks (tools m.registry ticks.registry_ticks p (some invocation.server_id))
    tool ← lift (
        ok_or (find (λ (t : GatewayMcpTool). t.tool_name == invocation.tool_name) listed)
          tool_unavailable)
    policy ← lift (m.policies p)
    bytes ← lift (ok_or (c.value_len invocation.arguments) invalid)
    call ← screen request_id p invocation reference tool policy bytes
    proceed call
