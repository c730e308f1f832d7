-- ===== src/Security/Rules.antt =====
-- crates/gateway-security/src/service.rs: the rules of the enforcer, on actions, findings and stages.
use text.Mathlib.Text.{starts_with}
use mathlib.Core.List.{◌++◌ as append}
use tuenel.Prelude.{
  ℕ, String, Bool, true, false, Option, none, some, List, [], ◌∷◌, any, leb, if◌then◌else◌,
}
use tuenel.Types.Security.{
  SecurityCategory, prompt_injection, jailbreak_attempt, secret_exposure, credential_exposure,
  source_code_secret, sensitive_personal_data, financial_data, SecuritySeverity, low, medium, high,
  critical, SecurityAction, allow, warn, redact, require_approval, block, SanitizedEvidence,
  SecurityFinding,
}
use tuenel.Security.Errors.{SecurityError}
use tuenel.Security.Policy.{SecurityPolicy}

unfoldable pub event_name : SecurityAction → String
event_name allow = "security.inspection.completed"
event_name warn = "security.request.warned"
event_name redact = "security.request.redacted"
event_name require_approval = "security.request.approval_required"
event_name block = "security.request.blocked"

abbrev pub is_injection : SecurityCategory → Bool
is_injection prompt_injection = true
is_injection jailbreak_attempt = true
is_injection _ = false

abbrev pub is_secret : SecurityCategory → Bool
is_secret secret_exposure = true
is_secret credential_exposure = true
is_secret source_code_secret = true
is_secret _ = false

abbrev pub is_personal : SecurityCategory → Bool
is_personal sensitive_personal_data = true
is_personal financial_data = true
is_personal _ = false

unfoldable pub block_error : {F32 : Type 0} → List (SecurityFinding F32) → SecurityError
block_error findings =
    if any (λ f. is_injection f.category) findings
    then SecurityError.prompt_injection_detected
    else if any (λ f. is_secret f.category) findings
    then SecurityError.secret_exposure_detected
    else if any (λ f. is_personal f.category) findings
    then SecurityError.sensitive_data_detected
    else SecurityError.blocked

unfoldable pub stage_enabled : SecurityPolicy → String → Bool
stage_enabled p stage =
    if starts_with stage "llm_output"
    then p.inspect_llm_output
    else if starts_with stage "mcp_argument"
    then p.inspect_mcp_arguments
    else if starts_with stage "mcp_result"
    then p.inspect_mcp_results
    else p.inspect_llm_input

-- The derived order of severities.
abbrev pub severity_rank : SecuritySeverity → ℕ
severity_rank low = 0
severity_rank medium = 1
severity_rank high = 2
severity_rank critical = 3

-- `max_by_key(|finding| finding.severity)`: of equals the last
unfoldable pub worst_finding :
    {F32 : Type 0} → List (SecurityFinding F32) → Option (SecurityFinding F32)
worst_finding [] = none
worst_finding (f ∷ fs) = elim (worst_finding fs) [
  | none ↦ some f
  | some g ↦ if leb (severity_rank f.severity) (severity_rank g.severity) then some g else some f
]

unfoldable pub evidence_of : {F32 : Type 0} → List (SecurityFinding F32) → List SanitizedEvidence
evidence_of [] = []
evidence_of (f ∷ fs) = append f.evidence (evidence_of fs)

-- `action.priority()` as text
abbrev pub priority_text : SecurityAction → String
priority_text allow = "0"
priority_text warn = "1"
priority_text redact = "2"
priority_text require_approval = "3"
priority_text block = "4"

abbrev pub stops : SecurityAction → Bool
stops require_approval = true
stops block = true
stops _ = false
