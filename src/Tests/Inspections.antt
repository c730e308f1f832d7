-- ===== src/Tests/Inspections.antt =====
-- The theorems on security policies and decisions, at one finding.
use Prim.Native.Nat.{min, max}
use tuenel.Prelude.{true, ℕ, ◌≡◌, refl, false, none, some, [], ◌∷◌, err, inr, All, any, ok, is_ok}
use tuenel.Prelude.{◌+◌}
use Prim.Native.Nat.{◌*◌}
use tuenel.Types.Float.{F32Ops}
use tuenel.Types.Security.{
  prompt_injection, high, allow, redact, block, SanitizedEvidence, SecurityFinding, prompt_text,
  InspectionContext,
}
use tuenel.Incidents.{IncidentRepository, IncidentError}
use tuenel.Security.Redaction.{merge_spans, sort_spans, valid_spans}
use tuenel.Security.Redaction.Spans.{covers, IsApart, merge_spans-IsApart}
use tuenel.Security.Rules
use tuenel.Security.Enforcer
use tuenel.Security.Enforcer.{
  Encoding, SecurityRepository, SecurityEnforcer, EnforcerWorld, AssessTicks, inspect_content,
}
use tuenel.Security.Enforcer.Passed.{Passed, inspect_content-Passed, inspect_content_fails_closed}
use tuenel.Security.Errors.{SecurityError}
use tuenel.Security.Policy.{
  SecurityPolicy, default, action, restrict_with, resolve_security_hierarchy,
}
use tuenel.Security.Policy.Restrict.{
  IsTighter, resolve_security_hierarchy-IsTighter, restrict_with_replaces,
}
use tuenel.Security.Decision.{decide, inspect, Inspector, run_inspectors, decide_action}

abbrev floats : F32Ops ℕ
floats = record {
  from_nat = λ n. n;
  add = λ a b. a + b;
  mul = λ a b. a * b;
  min = λ a b. min a b;
  clamp = λ a lo hi. max lo (min a hi);
  round_u8 = λ a. a;
}

abbrev finding : SecurityFinding ℕ
finding = record {
  finding_id = 1;
  inspector_id = "i";
  category = prompt_injection;
  severity = high;
  confidence = 1;
  evidence = [];
  recommended_action = redact;
  metadata = [];
}

-- A level that lets a finding pass.
abbrev lenient : SecurityPolicy
lenient = record default { actions = λ _ _. some allow }

abbrev context : InspectionContext
context = record {
  request_id = 1;
  tenant_id = "acme";
  project_id = none;
  principal_id = "p1";
  stage = "llm_output";
  tool_risk = none;
}

-- An inspector that fails.
abbrev broken : Inspector ℕ
broken _ _ = err SecurityError.inspection_failed

resolve_security_hierarchy-IsTighter_example :
    All (IsTighter (resolve_security_hierarchy (default ∷ lenient ∷ []))) (default ∷ lenient ∷ [])
resolve_security_hierarchy-IsTighter_example =
    resolve_security_hierarchy-IsTighter (default ∷ lenient ∷ [])

restrict_with_replaces_example :
    (action default prompt_injection high block ≡ block)
    × (action (restrict_with default lenient) prompt_injection high block ≡ allow)
restrict_with_replaces_example =
    restrict_with_replaces default lenient prompt_injection high allow block refl refl

abbrev evidence : SanitizedEvidence
evidence = record { redacted = "x"; sha256 = "h"; start = some 0; end = some 2 }

merge_spans-IsApart_example :
    IsApart (merge_spans (sort_spans (valid_spans 4 (evidence ∷ evidence ∷ []))))
    × ((i : ℕ)
        → any (covers i) (merge_spans (sort_spans (valid_spans 4 (evidence ∷ evidence ∷ []))))
          ≡ any (covers i) (valid_spans 4 (evidence ∷ evidence ∷ [])))
merge_spans-IsApart_example = merge_spans-IsApart 4 (evidence ∷ evidence ∷ [])

abbrev encoding : Encoding
encoding = record {
  encoded_len = λ _. some 4;
  to_string = λ _. none;
  from_str = λ _. none;
  uuid_text = λ _. "id";
  number_text = λ _. "0";
}

abbrev repository : SecurityRepository ℕ (Unit {0})
repository = record {
  resolved_security_policy = λ _ s. (ok (record default { inspect_llm_output = true }), s);
  insert_findings = λ _ _ s. (ok tt, s);
  insert_security_event = λ _ s. (ok tt, s);
}

abbrev incidents : IncidentRepository (Unit {0})
incidents = record {
  insert_incident = λ _ s. (ok tt, s);
  incident = λ _ _ s. (ok none, s);
  list_incidents = λ _ _ _ s. (ok [], s);
  update_incident = λ _ _ s. (err IncidentError.not_found, s);
  incident_timeline = λ _ _ s. (ok [], s);
}

-- An enforcer whose inspector finds nothing.
abbrev enforcer : SecurityEnforcer ℕ (Unit {0}) (Unit {0})
enforcer = record {
  inspectors = (λ _ _. ok []) ∷ [];
  repository = repository;
  incidents = incidents;
  enabled = true;
}

-- One whose inspector fails.
abbrev broken_enforcer : SecurityEnforcer ℕ (Unit {0}) (Unit {0})
broken_enforcer = record enforcer { inspectors = broken ∷ [] }

abbrev enforcer_world : EnforcerWorld (Unit {0}) (Unit {0})
enforcer_world = record { security = tt; incident = tt }

abbrev assess_ticks : AssessTicks
assess_ticks = record { event_id = 1; created_at = 2; incident_id = 3; incident_at = 4 }

inspect_content-Passed_example :
    Passed encoding (prompt_text "hi") (prompt_text "hi") (decide floats default [] false)
unfolding inspect_content Enforcer.assess Enforcer.persist Rules.stage_enabled inspect
    run_inspectors decide decide_action Enforcer.enforce Enforcer.passed_content Enforcer.report
    Rules.worst_finding tuenel.Security.Decision.max_action
inspect_content-Passed_example =
    inspect_content-Passed floats encoding enforcer assess_ticks context (prompt_text "hi")
      (prompt_text "hi") (decide floats default [] false) enforcer_world refl

inspect_content_fails_closed_example :
    is_ok
      (inspect_content floats encoding broken_enforcer assess_ticks context
        (prompt_text "hi")
        enforcer_world).0
    ≡ false
unfolding Rules.stage_enabled
inspect_content_fails_closed_example =
    inspect_content_fails_closed floats encoding broken_enforcer assess_ticks context
      (prompt_text "hi") (record default { inspect_llm_output = true }) 4 enforcer_world refl refl
      refl refl refl refl (inr refl)
