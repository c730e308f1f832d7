-- ===== src/Security/Enforcer/Passed.antt =====
-- What the enforcer lets pass (crates/gateway-security/src/service.rs).
use tuenel.Prelude.{
  ℕ, ◌≡◌, ◌≤◌, ◌<◌, ◌⊎◌, refl, true, false, not, some, ok, any, is_ok, arith, inl, inr,
  Result-cases,
}
use tuenel.Types.Float.{F32Ops}
use tuenel.Types.Security.{
  SecurityAction, allow, warn, redact, require_approval, block, priority, InspectionContent,
  InspectionContext,
}
use tuenel.Security.Policy.{SecurityPolicy}
use tuenel.Security.Decision.{SecurityDecision, decide, decide_action, max_action}
use tuenel.Security.Decision.Laws.{inspect_fails_closed}
use tuenel.Security.Redaction
use tuenel.Security.Rules.{stage_enabled, evidence_of}
use tuenel.Security.Enforcer.{
  Encoding, SecurityEnforcer, EnforcerWorld, AssessTicks, passed_content, persist, assess, enforce,
  inspect_content,
}

-- What passes: the content itself after at most a warning, or its redaction.
abbrev pub Passed :
    {F32 : Type 0}
    → Encoding
    → InspectionContent
    → InspectionContent
    → SecurityDecision F32
    → Type 0
Passed c content out d =
    ((out ≡ content) × (priority d.action ≤ 1))
    ⊎ ((d.action ≡ redact)
        × (Redaction.redact c.to_string c.from_str content (evidence_of d.findings) ≡ some out))

module _ {F32 R N : Type 0} (f : F32Ops F32) (c : Encoding) (e : SecurityEnforcer F32 R N) where
  enforce-Passed :
      (a : SecurityAction) (content mid out : InspectionContent) (d d' : SecurityDecision F32)
      → d.action ≡ a
      → passed_content f c e a content d.findings ≡ ok mid
      → enforce f c e a mid d ≡ ok (out, d')
      → Passed c content out d'
  unfolding passed_content enforce priority
  enforce-Passed allow content mid out d d' ha hp h = inl (ground (arith, ha), ground (arith, ha))
  enforce-Passed warn content mid out d d' ha hp h = inl (ground (arith, ha), ground (arith, ha))
  enforce-Passed redact content mid out d d' ha hp h = inr (ground arith, ground arith)
  enforce-Passed require_approval content mid out d d' ha hp h = absurd (cc)
  enforce-Passed block content mid out d d' ha hp h = absurd (cc)

  -- The content of an assessment is the one that the action of its decision hands on.
  assess-passed :
      (ticks : AssessTicks) (context : InspectionContext) (content out : InspectionContent)
      (d : SecurityDecision F32) (w : EnforcerWorld R N)
      → (assess f c e ticks context content w).0 ≡ ok (out, d)
      → passed_content f c e d.action content d.findings ≡ ok out
  unfolding assess persist decide decide_action max_action passed_content
  assess-passed ticks context content out d w h = ground arith

  -- What the enforcer lets pass is the content itself after at most a warning, or, where the action
  -- is a redaction, the content with the evidence of the findings redacted.
  pub inspect_content-Passed :
      (ticks : AssessTicks) (context : InspectionContext) (content out : InspectionContent)
      (d : SecurityDecision F32) (w : EnforcerWorld R N)
      → (inspect_content f c e ticks context content w).0 ≡ ok (out, d)
      → Passed c content out d
  unfolding inspect_content
  inspect_content-Passed ticks context content out d w h =
      elim (Result-cases (assess f c e ticks context content w).0) [
        | inr failed ↦ absurd (ground (arith, failed.1, h))
        | inl done ↦
            enforce-Passed done.0.1.action content done.0.0 out done.0.1 d refl
              (assess-passed ticks context content done.0.0 done.0.1 w (ground (arith, done.1)))
              (ground (arith, done.1, h))
      ]

  -- With the enforcer and the stage switched on, an enabled policy that does not fail open lets no
  -- content pass that one of the inspectors fails on or whose JSON text is longer than it allows.
  pub inspect_content_fails_closed :
      (ticks : AssessTicks) (context : InspectionContext) (content : InspectionContent)
      (p : SecurityPolicy) (n : ℕ) (w : EnforcerWorld R N)
      → e.enabled ≡ true
      → (e.repository.resolved_security_policy context w.security).0 ≡ ok p
      → stage_enabled p context.stage ≡ true
      → p.enabled ≡ true
      → p.fail_open ≡ false
      → c.encoded_len content ≡ some n
      → (p.maximum_content_bytes < n)
        ⊎ (any (λ i. not (is_ok (i context content))) e.inspectors ≡ true)
      → is_ok (inspect_content f c e ticks context content w).0 ≡ false
  unfolding inspect_content assess persist enforce
  inspect_content_fails_closed ticks context content p n w on found stage he hf hn h =
      ground
        (arith, inspect_fails_closed f c.encoded_len e.inspectors p context content n he hf hn h)
