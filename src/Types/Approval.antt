-- ===== src/Types/Approval.antt =====
-- Approval requests and security incidents (crates/gateway-types/src/lib.rs).
use tuenel.Prelude.{ℕ, String, Option}
use tuenel.Types.Identity.{Uuid, DateTime}
use tuenel.Types.Json.{Value}
use tuenel.Types.Mcp.{ToolRiskLevel}
use tuenel.Types.Security.{SecurityCategory, SecuritySeverity}

abbrev pub ApprovalId : Type 0
ApprovalId = Uuid

pub data ApprovalStatus : Type 0 where
  pending approved rejected expired cancelled : ApprovalStatus

pub data ApprovalResourceType : Type 0 where
  mcp_tool inference_request : ApprovalResourceType

pub record ApprovalRequest : Type 0 where
  pub approval_id : ApprovalId
  pub tenant_id : String
  pub project_id : Option String
  pub principal_id : String
  pub request_id : Uuid
  pub resource_type : ApprovalResourceType
  pub resource_id : String
  pub action : String
  pub sanitized_arguments : Value
  pub risk_level : ToolRiskLevel
  pub status : ApprovalStatus
  pub request_hash : String
  pub expires_at : DateTime
  pub created_at : DateTime

pub data IncidentStatus : Type 0 where
  opened acknowledged resolved ignored : IncidentStatus

pub record SecurityIncident : Type 0 where
  pub incident_id : Uuid
  pub tenant_id : String
  pub project_id : Option String
  pub principal_id : Option String
  pub request_id : Uuid
  pub category : SecurityCategory
  pub severity : SecuritySeverity
  pub status : IncidentStatus
  pub risk_score : ℕ
  pub sanitized_summary : String
  pub created_at : DateTime
  pub resolved_at : Option DateTime
