-- ===== src/Mcp/Invocation/Settled.antt =====
-- Two effects of a call of a tool (crates/gateway-mcp/src/invocation.rs): the action `block` of a
-- policy does not stop it, and a claim on an approval may be left behind.
use tuenel.Prelude.{
  ℕ, String, List, ◌≡◌, true, false, find, ◌==◌, some, ok, err, arith, string_eq, nat_eq,
}
use tuenel.Types.Identity.{Uuid, Principal}
use tuenel.Types.Approval.{ApprovalId}
use tuenel.Types.Security.{SecurityAction, InspectionContent, block}
use tuenel.Types.Mcp.{GatewayMcpTool, GatewayMcpInvocation}
use tuenel.Approval.{authorize_retry, claimed}
use tuenel.Mcp.Errors.{McpError}
use tuenel.Mcp.Registry.{server_for, tools}
use tuenel.Mcp.Policy.{McpPolicy, action}
use tuenel.Mcp.Calls.{
  McpCodec, McpInvocationService, McpWorld, McpTicks, Call, ApprovalReference, risk_of,
  is_require_approval,
}
use tuenel.Mcp.Consent.{approve, retry}
use tuenel.Mcp.Invocation.{new_call, proceed, run, screen, invoke}
use tuenel.Mcp.Invocation.Permitted.{Screened}
use tuenel.Mcp.Server.{McpServerRecord}
use tuenel.Mcp.Calls.{context_for}
use tuenel.Types.Security.{tool_arguments}

module _ {R T Q U A E Z : Type 0} (c : McpCodec) (m : McpInvocationService R T Q U A E Z)
    (ticks : McpTicks R T) where
  -- If the action that the policy sets for a tool is `block`, a call of this tool is run without an
  -- approval, as if the tool were allowed, where the registry gives the server and lists the tool,
  -- the policy allows the call and its size, the inspection of the arguments neither blocks it nor
  -- asks for an approval, and the call has a hash.
  pub invoke_block :
      (request_id : Uuid) (p : Principal) (invocation : GatewayMcpInvocation)
      (reference : ApprovalReference) (w : McpWorld R T Q U A E Z) (server : McpServerRecord)
      (listed : List GatewayMcpTool) (tool : GatewayMcpTool) (policy : McpPolicy) (bytes : ℕ)
      (seen : InspectionContent × SecurityAction) (hash : String)
      → let id = invocation.server_id in
        let risk = risk_of c policy tool invocation.tool_name in
        let call = new_call c m ticks request_id p invocation reference tool policy bytes seen in
        let found = server_for m.registry p id w.servers in
        let tooled = tools m.registry ticks.registry_ticks p (some id) found.1 in
        let context = context_for c m ticks request_id p risk "mcp_arguments" in
        let assessed = m.assess context (tool_arguments invocation.arguments) w.security in
        found.0 ≡ ok server
        → tooled.0 ≡ ok listed
        → find (λ (t : GatewayMcpTool). t.tool_name == invocation.tool_name) listed ≡ some tool
        → m.policies p ≡ ok policy
        → c.value_len invocation.arguments ≡ some bytes
        → Screened c m ticks request_id p invocation reference tool policy bytes seen w.security
        → action policy tool risk ≡ block
        → is_require_approval seen.1 ≡ false
        → c.invocation_hash call.invocation ≡ some hash
        → invoke c m ticks request_id p invocation reference w
          ≡ run c m ticks call (record w { servers = tooled.1; security = assessed.1 })
  unfolding invoke screen proceed approve
  invoke_block request_id p invocation reference w server listed tool policy bytes seen hash e1 e2
        e3 e4 e5 allowed blocked free hashed =
      ground (arith, e1, e2, e3, e4, e5, allowed, blocked, free, hashed)

  -- If the retry of an approved call is granted its claim, and the quota then refuses the call, the
  -- claim is neither completed nor failed: the approvals are as the grant left them.
  pub proceed_claim_leak :
      (call : Call) (id : ApprovalId) (key hash : String) (e : McpError)
      (w : McpWorld R T Q U A E Z)
      → call.needs_approval ≡ true
      → m.approval_enabled ≡ true
      → call.reference ≡ record { approval_id = some id; idempotency_key = some key }
      → c.invocation_hash call.invocation ≡ some hash
      → let granted =
          authorize_retry m.approval c.is_whitespace ticks.approval_now ticks.approval_later
            call.principal id key hash w.approvals in
        granted.0 ≡ ok claimed
        → (m.quota.reserve call.principal call.invocation.server_id call.invocation.tool_name
            call.policy w.quotas).0
          ≡ err e
        → ((proceed c m ticks call w).0 ≡ err e)
          × ((proceed c m ticks call w).1.approvals ≡ granted.1)
  unfolding proceed approve retry run
  proceed_claim_leak call id key hash e w needed enabled reference hashed done refused =
      ground (arith, needed, enabled, reference, hashed, done, refused)
