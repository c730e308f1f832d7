-- ===== src/Mcp/Calls.antt =====
-- crates/gateway-mcp/src/invocation.rs and usage.rs: what the call of a tool is made of, and the
-- records of it. The quota, the usage repository and the enforcer are parameters over their states
-- `Q`, `U` and `Z`; of the enforcer's decision only the action is read. Logging and metrics are left
-- out.
use Prim.Native.Char.{Char}
use Prim.Native.String.{◌++◌}
use tuenel.Prelude.{
  ℕ, String, Bool, true, false, Option, none, some, Result, Exec, map_err, string_eq, nat_eq,
}
use tuenel.Prelude.Maps.{get}
use tuenel.Types.Identity.{Uuid, DateTime, Principal}
use tuenel.Types.Json.{Value, string, object, field, end}
use tuenel.Types.Approval.{ApprovalId}
use tuenel.Types.Security.{
  SecurityAction, allow, warn, redact, require_approval, block, InspectionContent, prompt_text,
  structured_input, tool_arguments, tool_result, model_output, InspectionContext,
}
use tuenel.Types.Mcp.{
  McpServerId, ToolRiskLevel, GatewayMcpTool, GatewayMcpInvocation, GatewayMcpResult,
  McpUsageDetails,
}
use tuenel.Approval.{ApprovalService, ApprovalError}
use tuenel.Events.{AuditRepository, emit}
use tuenel.Mcp.Errors.{
  McpError, tool_not_allowed, approval_required, approval_rejected, approval_expired, unavailable,
}
use tuenel.Mcp.Policy.{McpPolicy, ValueOps, action, classify_tool}
use tuenel.Mcp.Registry.{McpRegistry, RegistryWorld, RegistryTicks}

pub record McpUsageEvent : Type 0 where
  pub event_id : Uuid
  pub request_id : Uuid
  pub tenant_id : String
  pub project_id : Option String
  pub principal_id : String
  pub details : McpUsageDetails
  pub status : String
  pub occurred_at : DateTime

-- A reservation is its key.
pub record McpQuota (Q : Type 0) : Type 0 where
  pub reserve : Principal → McpServerId → String → McpPolicy → Exec Q McpError String
  pub release : String → Exec Q McpError (Unit {0})

pub record ApprovalReference : Type 0 where
  pub approval_id : Option ApprovalId
  pub idempotency_key : Option String

-- serde_json and the hash, on the values that the service converts, and the words of a risk.
pub record McpCodec : Type 0 where
  pub values : ValueOps
  pub value_len : Value → Option ℕ
  pub invocation_hash : GatewayMcpInvocation → Option String
  pub result_len : GatewayMcpResult → Option ℕ
  pub result_to_value : GatewayMcpResult → Option Value
  pub result_from_value : Value → Option GatewayMcpResult
  pub uuid_text : Uuid → String
  pub to_ascii_lowercase : String → String
  pub is_whitespace : Char → Bool
  pub from_std : ℕ → Option ℕ

pub record McpInvocationService (R T Q U A E Z : Type 0) : Type 0 where
  pub registry : McpRegistry R T
  pub policies : Principal → Result McpError McpPolicy
  pub quota : McpQuota Q
  pub record_mcp_usage : McpUsageEvent → Exec U McpError (Unit {0})
  pub approval : ApprovalService A
  pub approval_enabled : Bool
  pub audit_events : AuditRepository E
  pub assess :
      InspectionContext → InspectionContent → Exec Z Unit (InspectionContent × SecurityAction)

pub record McpWorld (R T Q U A E Z : Type 0) : Type 0 where
  pub servers : RegistryWorld R T
  pub quotas : Q
  pub usages : U
  pub approvals : A
  pub events : E
  pub security : Z

-- The readings of the clock and the new identifiers of one invocation. `cut` is the state in which
-- the time-out cuts the call of the tool off, if it does.
pub record McpTicks (R T : Type 0) : Type 0 where
  pub registry_ticks : RegistryTicks
  pub cut : Option (RegistryWorld R T)
  pub stamp : String → Uuid × DateTime
  pub duration_ms : ℕ
  pub approval_id : ApprovalId
  pub approval_now : DateTime
  pub approval_later : DateTime

-- What is known of a call once its arguments have been inspected.
pub record Call : Type 0 where
  pub request_id : Uuid
  pub principal : Principal
  pub invocation : GatewayMcpInvocation
  pub reference : ApprovalReference
  pub policy : McpPolicy
  pub risk : ToolRiskLevel
  pub request_bytes : ℕ
  pub needs_approval : Bool

abbrev pub map_approval : ApprovalId → ApprovalError → McpError
map_approval id ApprovalError.expired = approval_expired
map_approval id ApprovalError.rejected = approval_rejected
map_approval id ApprovalError.forbidden = tool_not_allowed
map_approval id ApprovalError.replay = tool_not_allowed
map_approval id ApprovalError.pending = approval_required id
map_approval id ApprovalError.not_found = unavailable
map_approval id ApprovalError.unavailable = unavailable

abbrev pub is_block : SecurityAction → Bool
is_block block = true
is_block allow = false
is_block warn = false
is_block redact = false
is_block require_approval = false

abbrev pub is_require_approval : SecurityAction → Bool
is_require_approval require_approval = true
is_require_approval allow = false
is_require_approval warn = false
is_require_approval redact = false
is_require_approval block = false

-- The risk of a tool under a policy.
unfoldable pub risk_of : McpCodec → McpPolicy → GatewayMcpTool → String → ToolRiskLevel
risk_of c p tool name = elim (get p.risk_overrides name) [
  | some risk ↦ risk
  | none ↦ classify_tool c.to_ascii_lowercase tool
]

-- The arguments that an inspection hands on.
abbrev pub inspected_arguments : InspectionContent → Value → Value
inspected_arguments (tool_arguments value) old = value
inspected_arguments (prompt_text v) old = old
inspected_arguments (structured_input v) old = old
inspected_arguments (tool_result v) old = old
inspected_arguments (model_output v) old = old

module _ {R T Q U A E Z : Type 0} (c : McpCodec) (m : McpInvocationService R T Q U A E Z)
    (ticks : McpTicks R T) where
  abbrev pub on_registry :
      {B : Type 0} → Exec (RegistryWorld R T) McpError B → Exec (McpWorld R T Q U A E Z) McpError B
  on_registry f w = let (r, s) = f w.servers in (r, record w { servers = s })

  abbrev pub on_quota : {B : Type 0} → Exec Q McpError B → Exec (McpWorld R T Q U A E Z) McpError B
  on_quota f w = let (r, s) = f w.quotas in (r, record w { quotas = s })

  abbrev pub on_approval :
      {B : Type 0}
      → (ApprovalError → McpError)
      → Exec A ApprovalError B
      → Exec (McpWorld R T Q U A E Z) McpError B
  on_approval f action w =
      let (r, s) = action w.approvals in (map_err f r, record w { approvals = s })

  abbrev pub on_enforcer : {B : Type 0} → Exec Z Unit B → Exec (McpWorld R T Q U A E Z) McpError B
  on_enforcer f w =
      let (r, s) = f w.security in (map_err (λ _. unavailable) r, record w { security = s })

  abbrev pub usage_event :
      Uuid
      → Principal
      → GatewayMcpInvocation
      → ToolRiskLevel
      → ℕ
      → ℕ
      → Bool
      → ℕ
      → String
      → McpUsageEvent
  usage_event request_id p invocation risk request_bytes response_bytes needed count status =
      record {
        event_id = (ticks.stamp status).0;
        request_id = request_id;
        tenant_id = p.tenant_id;
        project_id = p.project_id;
        principal_id = p.principal_id;
        details = record {
          server_id = invocation.server_id;
          tool_name = invocation.tool_name;
          invocation_count = count;
          duration_ms = ticks.duration_ms;
          request_bytes = request_bytes;
          response_bytes = response_bytes;
          risk_level = risk;
          approval_required = needed;
        };
        status = status;
        occurred_at = (ticks.stamp status).1;
      }

  -- `record`: a failure is dropped.
  unfoldable pub record_usage : McpUsageEvent → McpWorld R T Q U A E Z → McpWorld R T Q U A E Z
  record_usage event w = record w { usages = (m.record_mcp_usage event w.usages).1 }

  -- `audit`: a failure is dropped.
  unfoldable pub audit :
      Uuid
      → Principal
      → GatewayMcpInvocation
      → String
      → String
      → McpWorld R T Q U A E Z
      → McpWorld R T Q U A E Z
  audit request_id p invocation event status w =
      let key = (((c.uuid_text request_id ++ ":") ++ event) ++ ":") ++ invocation.tool_name in
      let payload = object (
        field "server_id" (string (c.uuid_text invocation.server_id))
          (field "tool_name" (string invocation.tool_name) (field "status" (string status) end))) in
      record w {
        events =
            (emit m.audit_events (ticks.stamp event).0 (ticks.stamp event).1 key event p
              (some request_id) payload w.events).1;
      }

  -- What the two fields of a reference stand for together.
  abbrev pub with_reference : {B : Type 0} → ApprovalReference → (ApprovalId → String → B) → B → B
  with_reference r f default = elim r.approval_id [
    | none ↦ default
    | some id ↦ elim r.idempotency_key [ none ↦ default | some key ↦ f id key ]
  ]

  abbrev pub context_for : Uuid → Principal → ToolRiskLevel → String → InspectionContext
  context_for request_id p risk stage = record {
    request_id = request_id;
    tenant_id = p.tenant_id;
    project_id = p.project_id;
    principal_id = p.principal_id;
    stage = stage;
    tool_risk = some risk;
  }
