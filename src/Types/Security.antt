-- ===== src/Types/Security.antt =====
-- Security findings, actions and inspected content (crates/gateway-types/src/lib.rs).
use tuenel.Prelude.{ℕ, String, Option, List}
use tuenel.Types.Identity.{Uuid}
use tuenel.Types.Json.{Value}
use tuenel.Types.Mcp.{Metadata, ToolRiskLevel}

pub data SecurityCategory : Type 0 where
  prompt_injection : SecurityCategory
  jailbreak_attempt : SecurityCategory
  secret_exposure : SecurityCategory
  credential_exposure : SecurityCategory
  sensitive_personal_data : SecurityCategory
  financial_data : SecurityCategory
  source_code_secret : SecurityCategory
  data_exfiltration_attempt : SecurityCategory
  policy_violation : SecurityCategory
  suspicious_tool_argument : SecurityCategory
  suspicious_tool_result : SecurityCategory

unfoldable pub SecurityCategory-discrete : Discrete SecurityCategory
SecurityCategory-discrete = hlevel

pub data SecuritySeverity : Type 0 where
  low medium high critical : SecuritySeverity

unfoldable pub SecuritySeverity-discrete : Discrete SecuritySeverity
SecuritySeverity-discrete = hlevel

pub data SecurityAction : Type 0 where
  allow warn redact require_approval block : SecurityAction

unfoldable pub priority : SecurityAction → ℕ
priority allow = 0
priority warn = 1
priority redact = 2
priority require_approval = 3
priority block = 4

pub record SanitizedEvidence : Type 0 where
  pub redacted : String
  pub sha256 : String
  pub start : Option ℕ
  pub end : Option ℕ

pub record SecurityFinding (F32 : Type 0) : Type 0 where
  pub finding_id : Uuid
  pub inspector_id : String
  pub category : SecurityCategory
  pub severity : SecuritySeverity
  pub confidence : F32
  pub evidence : List SanitizedEvidence
  pub recommended_action : SecurityAction
  pub metadata : Metadata

pub data InspectionContent : Type 0 where
  prompt_text : String → InspectionContent
  structured_input : Value → InspectionContent
  tool_arguments : Value → InspectionContent
  tool_result : Value → InspectionContent
  model_output : String → InspectionContent

pub record InspectionContext : Type 0 where
  pub request_id : Uuid
  pub tenant_id : String
  pub project_id : Option String
  pub principal_id : String
  pub stage : String
  pub tool_risk : Option ToolRiskLevel
