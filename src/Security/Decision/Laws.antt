-- ===== src/Security/Decision/Laws.antt =====
-- What a decision says of its findings (crates/gateway-security/src/decision.rs, pipeline.rs).
use tuenel.Prelude.{
  ℕ, ◌≤◌, ◌<◌, ◌≡◌, ◌⊎◌, refl, true, false, not, Option, none, some, List, [], ◌∷◌, any, All, is_ok,
  inl, inr, arith, nat_beq,
}
use tuenel.Types.Float.{F32Ops}
use tuenel.Types.Security.{
  SecurityAction, block, priority, SecurityFinding, InspectionContent, InspectionContext,
}
use tuenel.Security.Policy.{SecurityPolicy, action}
use tuenel.Security.Decision.{
  max_action, action_or_allow, actions_of, decide_action, Inspector, run_inspectors, decide,
  inspect,
}

All-le :
    (m n : ℕ) (as' : List SecurityAction)
    → m ≤ n
    → All (λ a. priority a ≤ m) as'
    → All (λ a. priority a ≤ n) as'
All-le m n [] h hs = tt
All-le m n (a ∷ as') h hs = (omega (arith, hs.0), All-le m n as' h hs.1)

-- The priority of the highest action: that of no action of the list is above it.
max_action_bound :
    (as' : List SecurityAction)
    → All (λ a. priority a ≤ priority (action_or_allow (max_action as'))) as'
unfolding max_action
max_action_bound [] = tt
max_action_bound (a ∷ as') = (
  ground arith,
  All-le (priority (action_or_allow (max_action as')))
      (priority (action_or_allow (max_action (a ∷ as')))) as' (unfold priority in ground arith)
      (max_action_bound as'),
)

max_action_occurs :
    (as' : List SecurityAction)
    → (max_action as' ≡ none)
      ⊎ (any (λ a. nat_beq (priority a) (priority (action_or_allow (max_action as')))) as' ≡ true)
unfolding max_action
max_action_occurs [] = inl refl
max_action_occurs (a ∷ as') = inr (ground (arith, max_action_occurs as'))

module _ {F32 : Type 0} (f : F32Ops F32) where
  -- The effective action of a finding.
  abbrev pub effective : SecurityPolicy → SecurityFinding F32 → SecurityAction
  effective p x = action p x.category x.severity x.recommended_action

  All-actions_of :
      (P : SecurityAction → Type 0) (p : SecurityPolicy) (xs : List (SecurityFinding F32))
      → All P (actions_of p xs)
      → All (λ x. P (effective p x)) xs
  All-actions_of P p [] h = tt
  All-actions_of P p (x ∷ xs) h = (h.0, All-actions_of P p xs h.1)

  -- Where the inspection did not fail, the decision is at least as strict as the effective action
  -- of each finding.
  pub decide-le :
      (p : SecurityPolicy) (findings : List (SecurityFinding F32))
      → All (λ x. priority (effective p x) ≤ priority (decide f p findings false).action) findings
  unfolding decide decide_action
  decide-le p findings =
      All-actions_of
        (λ a. priority a ≤ priority (action_or_allow (max_action (actions_of p findings)))) p
        findings (max_action_bound (actions_of p findings))

  failed-run_inspectors :
      (is : List (Inspector F32)) (context : InspectionContext) (content : InspectionContent)
      → (run_inspectors is context content).1 ≡ any (λ i. not (is_ok (i context content))) is
  unfolding run_inspectors
  failed-run_inspectors [] context content = refl
  failed-run_inspectors (i ∷ is) context content =
      ground (arith, failed-run_inspectors is context content)

  -- An enabled policy that does not fail open blocks a content that one of the inspectors fails
  -- on, and a content whose JSON text is longer than the policy allows.
  pub inspect_fails_closed :
      (encoded_len : InspectionContent → Option ℕ) (is : List (Inspector F32)) (p : SecurityPolicy)
      (context : InspectionContext) (content : InspectionContent) (n : ℕ)
      → p.enabled ≡ true
      → p.fail_open ≡ false
      → encoded_len content ≡ some n
      → (p.maximum_content_bytes < n) ⊎ (any (λ i. not (is_ok (i context content))) is ≡ true)
      → (inspect f encoded_len is p context content).action ≡ block
  unfolding inspect decide decide_action
  inspect_fails_closed encoded_len is p context content n he hf hn h =
      ground (arith, failed-run_inspectors is context content)
