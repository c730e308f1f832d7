-- ===== src/Security/Decision.antt =====
-- crates/gateway-security/src/decision.rs, scoring.rs and pipeline.rs: the score of the findings,
-- the decision on them, and the pipeline of inspectors. The length of the JSON text of a content
-- is the parameter `encoded_len`, `none` where serialization fails.
pub mod Laws
use tuenel.Prelude.{
  ℕ, ◌+◌, Bool, true, false, not, ◌||◌, Option, none, some, List, [], ◌∷◌, ◌++◌, map, Result, ok,
  err, leb, ltb, if◌then◌else◌,
}
use tuenel.Prelude.Words.{saturating_add}
use mathlib.Core.List.{foldl}
use tuenel.Types.Float.{F32Ops}
use tuenel.Types.Security.{
  SecuritySeverity, low, medium, high, critical, SecurityAction, allow, warn, block, priority,
  SecurityFinding, InspectionContent, InspectionContext,
}
use tuenel.Security.Errors.{SecurityError}
use tuenel.Security.Policy.{SecurityPolicy, action}

-- The floor and the width of the band of a severity.
abbrev pub band : SecuritySeverity → ℕ × ℕ
band low = (5, 24)
band medium = (30, 29)
band high = (60, 19)
band critical = (80, 20)

module _ {F32 : Type 0} (f : F32Ops F32) where
  unfoldable pub risk_score : List (SecurityFinding F32) → ℕ
  risk_score findings = f.round_u8 (
      f.min
        (foldl
          (λ (score : F32) (finding : SecurityFinding F32).
            f.add (f.add score (f.from_nat (band finding.severity).0)) (
              f.mul (f.from_nat (band finding.severity).1)
                (f.clamp finding.confidence (f.from_nat 0) (f.from_nat 1))))
          (f.from_nat 0) findings)
        (f.from_nat 100))

pub record SecurityDecision (F32 : Type 0) : Type 0 where
  pub action : SecurityAction
  pub risk_score : ℕ
  pub findings : List (SecurityFinding F32)
  pub inspection_failed : Bool

-- `max_by_key(|action| action.priority())`: of equals the last
unfoldable pub max_action : List SecurityAction → Option SecurityAction
max_action [] = none
max_action (a ∷ as') = elim (max_action as') [
  | none ↦ some a
  | some b ↦ if leb (priority a) (priority b) then some b else some a
]

abbrev pub action_or_allow : Option SecurityAction → SecurityAction
action_or_allow none = allow
action_or_allow (some a) = a

-- The actions of the findings under a policy.
abbrev pub actions_of :
    {F32 : Type 0} → SecurityPolicy → List (SecurityFinding F32) → List SecurityAction
actions_of p [] = []
actions_of p (x ∷ xs) = action p x.category x.severity x.recommended_action ∷ actions_of p xs

unfoldable pub decide_action :
    {F32 : Type 0} → SecurityPolicy → List (SecurityFinding F32) → Bool → SecurityAction
decide_action p findings inspection_failed =
    if inspection_failed
    then (if p.fail_open then warn else block)
    else action_or_allow (max_action (actions_of p findings))

-- An inspector's `inspect`.
abbrev pub Inspector : Type 0 → Type 0
Inspector F32 =
    InspectionContext → InspectionContent → Result SecurityError (List (SecurityFinding F32))

-- The findings of the inspectors in order, and whether one of them failed.
unfoldable pub run_inspectors :
    {F32 : Type 0}
    → List (Inspector F32)
    → InspectionContext
    → InspectionContent
    → List (SecurityFinding F32) × Bool
run_inspectors [] context content = ([], false)
run_inspectors (i ∷ is) context content =
    let (findings, failed) = run_inspectors is context content in
    elim (i context content) [ ok values ↦ (values ++ findings, failed) | err e ↦ (findings, true) ]

module _ {F32 : Type 0} (f : F32Ops F32) where
  unfoldable pub decide : SecurityPolicy → List (SecurityFinding F32) → Bool → SecurityDecision F32
  decide p findings inspection_failed = record {
    action = decide_action p findings inspection_failed;
    risk_score = risk_score f findings;
    findings = findings;
    inspection_failed = inspection_failed;
  }

  -- SecurityPipeline::inspect
  unfoldable pub inspect :
      (InspectionContent → Option ℕ)
      → List (Inspector F32)
      → SecurityPolicy
      → InspectionContext
      → InspectionContent
      → SecurityDecision F32
  inspect encoded_len inspectors p context content =
      let size : ℕ = elim (encoded_len content) [
        | none ↦ saturating_add p.maximum_content_bytes 1
        | some n ↦ n
      ] in
      if not p.enabled
      then decide p [] false
      else if ltb p.maximum_content_bytes size
      then decide p [] true
      else let (findings, failed) = run_inspectors inspectors context content in
        decide p findings failed
