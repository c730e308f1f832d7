-- ===== src/Tests/Calls.antt =====
-- The theorems on calls of MCP tools, at one tool of one server.
use tuenel.Prelude.{
  nat_eq, ℕ, ◌+◌, ◌-◌, ◌≡◌, refl, true, false, none, some, List, [], ◌∷◌, ok, err, string_eq, ◌⊎◌,
}
use tuenel.Prelude.Maps.{get}
use tuenel.Types.Json.{object, end}
use tuenel.Types.Mcp.{destructive}
use tuenel.Types.Security.{SecurityAction, allow, block, InspectionContent}
use tuenel.Mcp.Errors.{quota_exceeded}
use tuenel.Mcp.Policy.{
  McpPolicy, default_policy, or_default, restrict_with, resolve_mcp_hierarchy, action,
}
use tuenel.Mcp.Server.{McpServerRecord, stdio, McpTransport, owned_by}
use tuenel.Mcp.Registry
use tuenel.Mcp.Registry.{
  McpRegistry, RegistryWorld, RegistryTicks, refresh, health, invoke_tool, server_for,
}
use tuenel.Mcp.Server
use tuenel.Mcp.Calls.{
  McpCodec, McpInvocationService, McpWorld, McpTicks, Call, ApprovalReference, McpUsageEvent,
}
use tuenel.Mcp.Invocation.{new_call, invoke, proceed, run}
use tuenel.Mcp.Invocation.Permitted.{Permitted, invoke-Permitted}
use tuenel.Mcp.Invocation.Settled.{invoke_block, proceed_claim_leak}
use tuenel.Mcp.Invocation.Quota.{Settles, invoke-quotas}
use tuenel.Approval
use tuenel.Approval.{authorize_retry}
use tuenel.Approval.Text
use tuenel.Types.Approval.{ApprovalRequest}
use tuenel.Tests.Approvals
use tuenel.Tests.Data.{caller}
use tuenel.Tests.Tools.{server, tool, answer, registry, servers, registry_ticks, invocation}

-- The action of the policy is `block`.
abbrev blocking : McpPolicy
blocking = record default_policy { tool_actions = ("wipe", block) ∷ [] }

abbrev codec : McpCodec
codec = record {
  values = record { pointer = λ _ _. none; value_eq = λ _ _. false };
  value_len = λ _. some 2;
  invocation_hash = λ _. some "hash";
  result_len = λ _. some 10;
  result_to_value = λ _. some (object end);
  result_from_value = λ _. some answer;
  uuid_text = λ _. "id";
  to_ascii_lowercase = λ text. text;
  is_whitespace = Approvals.no_space;
  from_std = λ n. some n;
}

-- A quota that counts the reservations that are out.
abbrev tools_service :
    McpInvocationService (Unit {0}) ℕ ℕ (List McpUsageEvent) ApprovalRequest ℕ (Unit {0})
tools_service = record {
  registry = registry;
  policies = λ _. ok blocking;
  quota = record { reserve = λ _ _ _ _ n. (ok "k", n + 1); release = λ _ n. (ok tt, n - 1) };
  record_mcp_usage = λ event events. (ok tt, event ∷ events);
  approval = Approvals.service;
  approval_enabled = true;
  audit_events = record { append = λ _ n. (ok tt, n + 1) };
  assess = λ _ content s. (ok (content, allow), s);
}

-- The same with a quota that refuses every call.
abbrev full_service :
    McpInvocationService (Unit {0}) ℕ ℕ (List McpUsageEvent) ApprovalRequest ℕ (Unit {0})
full_service = record tools_service {
  quota = record { reserve = λ _ _ _ _ n. (err quota_exceeded, n); release = λ _ n. (ok tt, n) };
}

abbrev tools_world : McpWorld (Unit {0}) ℕ ℕ (List McpUsageEvent) ApprovalRequest ℕ (Unit {0})
tools_world = record {
  servers = servers;
  quotas = 0;
  usages = [];
  approvals = Approvals.approved_request;
  events = 0;
  security = tt;
}

abbrev tools_ticks : McpTicks (Unit {0}) ℕ
tools_ticks = record {
  registry_ticks = registry_ticks;
  cut = none;
  stamp = λ _. (1, 5);
  duration_ms = 1;
  approval_id = 1;
  approval_now = 5;
  approval_later = 6;
}

abbrev no_reference : ApprovalReference
no_reference = record { approval_id = none; idempotency_key = none }

abbrev seen : InspectionContent × SecurityAction
seen = (InspectionContent.tool_arguments (object end), allow)

abbrev approved_call : Call
approved_call = record {
  request_id = 9;
  principal = caller;
  invocation = invocation;
  reference = record { approval_id = some 1; idempotency_key = some "once" };
  policy = default_policy;
  risk = destructive;
  request_bytes = 2;
  needs_approval = true;
}

invoke-Permitted_example :
    ((invoke codec tools_service tools_ticks 9 caller invocation no_reference
        tools_world).1.servers.transports
      ≡ 0)
    ⊎ Permitted codec tools_service tools_ticks 9 caller invocation no_reference tools_world
invoke-Permitted_example =
    invoke-Permitted codec tools_service tools_ticks 9 caller invocation no_reference tools_world

invoke-quotas_example :
    Settles codec tools_service tools_ticks caller 7 "wipe" 0 0
      (invoke codec tools_service tools_ticks 9 caller invocation no_reference tools_world).1
invoke-quotas_example =
    invoke-quotas codec tools_service tools_ticks 9 caller invocation no_reference tools_world

invoke_block_example :
    let call =
      new_call codec tools_service tools_ticks 9 caller invocation no_reference tool blocking 2
        seen in
    let found = server_for registry caller 7 servers in
    let tooled = Registry.tools registry registry_ticks caller (some 7) found.1 in
    invoke codec tools_service tools_ticks 9 caller invocation no_reference tools_world
    ≡ run codec tools_service tools_ticks call (record tools_world { servers = tooled.1 })
unfolding action get server_for Registry.tools owned_by Server.get_tools tuenel.Mcp.Policy.authorize
invoke_block_example =
    invoke_block codec tools_service tools_ticks 9 caller invocation no_reference tools_world server
      (tool ∷ []) tool blocking 2 seen "hash" refl refl refl refl refl (refl, refl, refl, refl) refl
      refl refl

proceed_claim_leak_example :
    ((proceed codec full_service tools_ticks approved_call tools_world).0 ≡ err quota_exceeded)
    × ((proceed codec full_service tools_ticks approved_call tools_world).1.approvals
        ≡ Approvals.approved_request)
unfolding authorize_retry Text.is_blank Approval.get_approval Approval.expire Approval.claim
proceed_claim_leak_example =
    proceed_claim_leak codec full_service tools_ticks approved_call 1 "once" "hash" quota_exceeded
      tools_world refl refl refl refl refl refl
