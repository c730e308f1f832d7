-- ===== src/Security/Enforcer.antt =====
-- crates/gateway-security/src/service.rs: the enforcer around the inspection pipeline. The
-- repository is a trait, a record over its state `R` here; a redaction that panics is `panicked`.
-- The text of a Uuid and of a number, the clock readings and new identifiers are arguments; metrics
-- and tracing are left out.
pub mod Passed
use Prim.Native.String.{◌++◌}
use text.Mathlib.Text.{starts_with}
use mathlib.Core.List.{◌++◌ as append}
use tuenel.Prelude.{
  ℕ, String, Bool, true, false, not, ◌&&◌, Option, none, some, List, [], ◌∷◌, Result, ok, err,
  map_err, Exec, continue, ◌>>=◌, ◌>>◌, lift, pure, raise, any, leb, length, if◌then◌else◌,
}
use tuenel.Types.Identity.{Uuid, DateTime}
use tuenel.Types.Float.{F32Ops}
use tuenel.Types.Json.{Value, bool, number, object, end, field}
use tuenel.Types.Security.{
  SecurityCategory, prompt_injection, jailbreak_attempt, secret_exposure, credential_exposure,
  source_code_secret, sensitive_personal_data, financial_data, SecuritySeverity, low, medium, high,
  critical, SecurityAction, allow, warn, redact, require_approval, block, SanitizedEvidence,
  SecurityFinding, InspectionContent, InspectionContext,
}
use tuenel.Incidents.{IncidentRepository, create_incident}
use tuenel.Security.Rules.{
  event_name, block_error, stage_enabled, worst_finding, evidence_of, priority_text, stops,
}
use tuenel.Security.Errors.{SecurityError}
use tuenel.Security.Policy.{SecurityPolicy, default}
use tuenel.Security.Decision.{SecurityDecision, Inspector, decide}
use tuenel.Security.Decision
use tuenel.Security.Redaction

pub record SecurityEvent : Type 0 where
  pub event_id : Uuid
  pub idempotency_key : String
  pub tenant_id : String
  pub project_id : Option String
  pub principal_id : Option String
  pub request_id : Uuid
  pub event_type : String
  pub action : SecurityAction
  pub risk_score : ℕ
  pub metadata : Value
  pub created_at : DateTime

-- What the enforcer calls of the trait.
pub record SecurityRepository (F32 R : Type 0) : Type 0 where
  pub resolved_security_policy : InspectionContext → Exec R SecurityError SecurityPolicy
  pub insert_findings :
      InspectionContext → List (SecurityFinding F32) → Exec R SecurityError (Unit {0})
  pub insert_security_event : SecurityEvent → Exec R SecurityError (Unit {0})

pub record SecurityEnforcer (F32 R N : Type 0) : Type 0 where
  pub inspectors : List (Inspector F32)
  pub repository : SecurityRepository F32 R
  pub incidents : IncidentRepository N
  pub enabled : Bool

pub record EnforcerWorld (R N : Type 0) : Type 0 where
  pub security : R
  pub incident : N

pub data Failure : Type 0 where
  failed : SecurityError → Failure
  panicked : Failure

-- The clock readings and new identifiers of an assessment.
pub record AssessTicks : Type 0 where
  pub event_id : Uuid
  pub created_at : DateTime
  pub incident_id : Uuid
  pub incident_at : DateTime

-- What serde_json and `Display` do.
pub record Encoding : Type 0 where
  pub encoded_len : InspectionContent → Option ℕ
  pub to_string : Value → Option String
  pub from_str : String → Option Value
  pub uuid_text : Uuid → String
  pub number_text : ℕ → String

module _ {F32 R N : Type 0} (f : F32Ops F32) (c : Encoding) (e : SecurityEnforcer F32 R N) where
  abbrev pub on_repository :
      {A : Type 0} → Exec R SecurityError A → Exec (EnforcerWorld R N) Failure A
  on_repository m w = let (r, s) = m w.security in (map_err failed r, record w { security = s })

  unfoldable pub event_for : AssessTicks → InspectionContext → SecurityDecision F32 → SecurityEvent
  event_for ticks context d = record {
    event_id = ticks.event_id;
    idempotency_key =
        (((c.uuid_text context.request_id ++ ":") ++ context.stage) ++ ":")
        ++ priority_text d.action;
    tenant_id = context.tenant_id;
    project_id = context.project_id;
    principal_id = some context.principal_id;
    request_id = context.request_id;
    event_type = event_name d.action;
    action = d.action;
    risk_score = d.risk_score;
    metadata = object (
        field "finding_count" (number (c.number_text (length d.findings)))
          (field "inspection_failed" (bool d.inspection_failed) end));
    created_at = ticks.created_at;
  }

  -- An incident for the worst finding, if there is one.
  unfoldable pub report :
      AssessTicks
      → InspectionContext
      → SecurityDecision F32
      → Option (SecurityFinding F32)
      → Exec (EnforcerWorld R N) Failure (Unit {0})
  report ticks context d none w = (ok tt, w)
  report ticks context d (some finding) w =
      let (r, s) =
        create_incident e.incidents ticks.incident_id ticks.incident_at context finding d.risk_score
          w.incident in
      (
        elim r [ ok _ ↦ ok tt | err _ ↦ err (failed SecurityError.inspection_failed) ],
        record w { incident = s },
      )

  abbrev pub or_panic : Option InspectionContent → Result Failure InspectionContent
  or_panic none = err panicked
  or_panic (some content) = ok content

  -- The content that an assessment with this action hands on.
  unfoldable pub passed_content :
      SecurityAction
      → InspectionContent
      → List (SecurityFinding F32)
      → Result Failure InspectionContent
  passed_content redact content findings =
      or_panic (Redaction.redact c.to_string c.from_str content (evidence_of findings))
  passed_content allow content findings = ok content
  passed_content warn content findings = ok content
  passed_content block content findings = ok content
  passed_content require_approval content findings = ok content

  -- `assess` from the decision on.
  unfoldable pub persist :
      AssessTicks
      → SecurityPolicy
      → InspectionContext
      → InspectionContent
      → SecurityDecision F32
      → Exec (EnforcerWorld R N) Failure (InspectionContent × SecurityDecision F32)
  persist ticks p context content d = do
    on_repository (e.repository.insert_findings context d.findings)
    on_repository (e.repository.insert_security_event (event_for ticks context d))
    report ticks context d
        (if p.create_incidents && stops d.action then worst_finding d.findings else none)
    out ← lift (passed_content d.action content d.findings)
    pure (out, d)

  unfoldable pub assess :
      AssessTicks
      → InspectionContext
      → InspectionContent
      → Exec (EnforcerWorld R N) Failure (InspectionContent × SecurityDecision F32)
  assess ticks context content =
      if not e.enabled
      then pure (content, decide f (record default { enabled = false }) [] false)
      else do
        p ← on_repository (e.repository.resolved_security_policy context)
        if not (stage_enabled p context.stage)
            then pure (content, decide f p [] false)
            else persist ticks p context content
                (Decision.inspect f c.encoded_len e.inspectors p context content)

  -- The arms on the action in `inspect`.
  unfoldable pub enforce :
      SecurityAction
      → InspectionContent
      → SecurityDecision F32
      → Result Failure (InspectionContent × SecurityDecision F32)
  enforce block content d = err (failed (block_error d.findings))
  enforce require_approval content d = err (failed SecurityError.approval_required)
  enforce allow content d = ok (content, d)
  enforce warn content d = ok (content, d)
  enforce redact content d = ok (content, d)

  unfoldable pub inspect_content :
      AssessTicks
      → InspectionContext
      → InspectionContent
      → Exec (EnforcerWorld R N) Failure (InspectionContent × SecurityDecision F32)
  inspect_content ticks context content = do
    assessed ← assess ticks context content
    lift (enforce assessed.1.action assessed.0 assessed.1)

  unfoldable pub enabled_for : InspectionContext → Exec (EnforcerWorld R N) Failure Bool
  enabled_for context = if not e.enabled then pure false else do
    p ← on_repository (e.repository.resolved_security_policy context)
    pure (stage_enabled p context.stage)
