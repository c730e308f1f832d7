-- ===== src/Incidents.antt =====
-- crates/gateway-incidents/src: security incidents. The repository is a trait, a record over its
-- state `N` here; the clock readings and the new identifiers are arguments.
use Prim.Native.Nat.{min}
use Prim.Native.String.{◌++◌}
use tuenel.Prelude.{ℕ, String, Option, none, some, List, Exec, ok_or, ◌>>=◌, ◌>>◌, lift, pure}
use tuenel.Types.Identity.{Uuid, DateTime}
use tuenel.Types.Security.{
  SecurityCategory, prompt_injection, jailbreak_attempt, secret_exposure, credential_exposure,
  sensitive_personal_data, financial_data, source_code_secret, data_exfiltration_attempt,
  policy_violation, suspicious_tool_argument, suspicious_tool_result, SecurityFinding,
  InspectionContext,
}
use tuenel.Types.Approval.{IncidentStatus, opened, SecurityIncident}
use tuenel.Approval.Text.{take_chars}

pub data IncidentError : Type 0 where
  not_found unavailable : IncidentError

pub record IncidentTimelineEntry : Type 0 where
  pub entry_id : Uuid
  pub incident_id : Uuid
  pub status : IncidentStatus
  pub actor : String
  pub sanitized_note : Option String
  pub occurred_at : DateTime

pub record IncidentRepository (N : Type 0) : Type 0 where
  pub insert_incident : SecurityIncident → Exec N IncidentError (Unit {0})
  pub incident : String → Uuid → Exec N IncidentError (Option SecurityIncident)
  pub list_incidents :
      String → Option IncidentStatus → ℕ → Exec N IncidentError (List SecurityIncident)
  pub update_incident : String → IncidentTimelineEntry → Exec N IncidentError SecurityIncident
  pub incident_timeline : String → Uuid → Exec N IncidentError (List IncidentTimelineEntry)

unfoldable pub category_name : SecurityCategory → String
category_name prompt_injection = "prompt injection"
category_name jailbreak_attempt = "jailbreak"
category_name secret_exposure = "secret exposure"
category_name credential_exposure = "credential exposure"
category_name sensitive_personal_data = "sensitive personal data"
category_name financial_data = "financial data"
category_name source_code_secret = "source-code secret"
category_name data_exfiltration_attempt = "data exfiltration"
category_name policy_violation = "policy violation"
category_name suspicious_tool_argument = "suspicious tool argument"
category_name suspicious_tool_result = "suspicious tool result"

module _ {N : Type 0} (i : IncidentRepository N) where
  unfoldable pub create_incident :
      {F32 : Type 0}
      → Uuid
      → DateTime
      → InspectionContext
      → SecurityFinding F32
      → ℕ
      → Exec N IncidentError SecurityIncident
  create_incident id now context finding risk_score =
      let made : SecurityIncident = record {
        incident_id = id;
        tenant_id = context.tenant_id;
        project_id = context.project_id;
        principal_id = some context.principal_id;
        request_id = context.request_id;
        category = finding.category;
        severity = finding.severity;
        status = opened;
        risk_score = risk_score;
        sanitized_summary =
            (category_name finding.category ++ " finding from ") ++ finding.inspector_id;
        created_at = now;
        resolved_at = none;
      } in
      i.insert_incident made >> pure made

  unfoldable pub get_incident : String → Uuid → Exec N IncidentError SecurityIncident
  get_incident tenant_id id = do found ← i.incident tenant_id id; lift (ok_or found not_found)

  unfoldable pub list_by_status :
      String → Option IncidentStatus → ℕ → Exec N IncidentError (List SecurityIncident)
  list_by_status tenant_id status limit = i.list_incidents tenant_id status (min limit 200)

  abbrev pub short_note : Option String → Option String
  short_note none = none
  short_note (some text) = some (take_chars 512 text)

  unfoldable pub update_status :
      Uuid
      → DateTime
      → String
      → Uuid
      → IncidentStatus
      → String
      → Option String
      → Exec N IncidentError SecurityIncident
  update_status entry_id now tenant_id id status actor note = i.update_incident tenant_id (record {
    entry_id = entry_id;
    incident_id = id;
    status = status;
    actor = actor;
    sanitized_note = short_note note;
    occurred_at = now;
  })

  unfoldable pub timeline : String → Uuid → Exec N IncidentError (List IncidentTimelineEntry)
  timeline tenant_id id = i.incident_timeline tenant_id id
