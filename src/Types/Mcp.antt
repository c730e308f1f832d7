-- ===== src/Types/Mcp.antt =====
-- MCP tools, invocations and results (crates/gateway-types/src/lib.rs). `Metadata` is a list of
-- keys and values.
use tuenel.Prelude.{ℕ, String, Bool, Option, List}
use tuenel.Types.Identity.{Uuid}
use tuenel.Types.Json.{Value}

abbrev pub McpServerId : Type 0
McpServerId = Uuid

abbrev pub Metadata : Type 0
Metadata = List (String × Value)

pub data ToolRiskLevel : Type 0 where
  read_only mutating destructive privileged unknown : ToolRiskLevel

pub record ToolAnnotations : Type 0 where
  pub title : Option String
  pub read_only_hint : Option Bool
  pub destructive_hint : Option Bool
  pub idempotent_hint : Option Bool
  pub open_world_hint : Option Bool
  pub administrator_risk : Option ToolRiskLevel

pub record GatewayMcpTool : Type 0 where
  pub server_id : McpServerId
  pub tool_name : String
  pub description : Option String
  pub input_schema : Value
  pub annotations : ToolAnnotations

pub record GatewayMcpInvocation : Type 0 where
  pub server_id : McpServerId
  pub tool_name : String
  pub arguments : Value
  pub metadata : Metadata

pub data McpContentPart : Type 0 where
  text : String → McpContentPart
  json : Value → McpContentPart
  resource : String → Option String → Option String → McpContentPart
  binary : String → String → McpContentPart

pub record GatewayMcpResult : Type 0 where
  pub content : List McpContentPart
  pub is_error : Bool
  pub metadata : Metadata

pub record McpUsageDetails : Type 0 where
  pub server_id : McpServerId
  pub tool_name : String
  pub invocation_count : ℕ
  pub duration_ms : ℕ
  pub request_bytes : ℕ
  pub response_bytes : ℕ
  pub risk_level : ToolRiskLevel
  pub approval_required : Bool
