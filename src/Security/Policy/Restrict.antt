-- ===== src/Security/Policy/Restrict.antt =====
-- A child policy only tightens security (crates/gateway-security/src/policy.rs).
use mathlib.Core.List.{foldl}
use tuenel.Prelude.{◌≤◌, ◌≡◌, refl, true, false, Option, none, some, List, [], ◌∷◌, All, arith}
use tuenel.Types.Security.{SecurityCategory, SecuritySeverity, SecurityAction, priority}
use tuenel.Security.Policy.{
  SecurityPolicy, action, raise_action, merge_action, restrict_with, resolve_security_hierarchy,
}

-- An entry at least as strict as another: of no lower priority where the other is set.
abbrev pub Stricter : Option SecurityAction → Option SecurityAction → Type 0
Stricter entry none = Unit {0}
Stricter entry (some a) = (b : SecurityAction) × (entry ≡ some b) × (priority a ≤ priority b)

-- `p` is at least as tight as `q`.
pub record IsTighter (p q : SecurityPolicy) : Type 0 where
  pub enabled : q.enabled ≡ true → p.enabled ≡ true
  pub fail_closed : q.fail_open ≡ false → p.fail_open ≡ false
  pub llm_input : q.inspect_llm_input ≡ true → p.inspect_llm_input ≡ true
  pub llm_output : q.inspect_llm_output ≡ true → p.inspect_llm_output ≡ true
  pub mcp_arguments : q.inspect_mcp_arguments ≡ true → p.inspect_mcp_arguments ≡ true
  pub mcp_results : q.inspect_mcp_results ≡ true → p.inspect_mcp_results ≡ true
  pub incidents : q.create_incidents ≡ true → p.create_incidents ≡ true
  pub content : p.maximum_content_bytes ≤ q.maximum_content_bytes
  pub stricter :
      (c : SecurityCategory) (s : SecuritySeverity) → Stricter (p.actions c s) (q.actions c s)

merge_action-left : (a b : Option SecurityAction) → Stricter (merge_action a b) a
unfolding merge_action
merge_action-left none b = tt
merge_action-left (some a) none = (a, refl, ground arith)
merge_action-left (some a) (some b) = (raise_action (some a) b, refl, ground arith)

merge_action-right : (a b : Option SecurityAction) → Stricter (merge_action a b) b
unfolding merge_action
merge_action-right a none = tt
merge_action-right none (some b) = (raise_action none b, refl, ground arith)
merge_action-right (some a) (some b) = (raise_action (some a) b, refl, ground arith)

IsTighter-restrict_with_left : (p child : SecurityPolicy) → IsTighter (restrict_with p child) p
unfolding restrict_with
IsTighter-restrict_with_left p child = record {
  enabled = λ h. ground arith;
  fail_closed = λ h. ground arith;
  llm_input = λ h. ground arith;
  llm_output = λ h. ground arith;
  mcp_arguments = λ h. ground arith;
  mcp_results = λ h. ground arith;
  incidents = λ h. ground arith;
  content = omega arith;
  stricter = λ c s. merge_action-left (p.actions c s) (child.actions c s);
}

IsTighter-restrict_with_right : (p child : SecurityPolicy) → IsTighter (restrict_with p child) child
unfolding restrict_with
IsTighter-restrict_with_right p child = record {
  enabled = λ h. ground arith;
  fail_closed = λ h. ground arith;
  llm_input = λ h. ground arith;
  llm_output = λ h. ground arith;
  mcp_arguments = λ h. ground arith;
  mcp_results = λ h. ground arith;
  incidents = λ h. ground arith;
  content = omega arith;
  stricter = λ c s. merge_action-right (p.actions c s) (child.actions c s);
}

Stricter-trans : (a b c : Option SecurityAction) → Stricter a b → Stricter b c → Stricter a c
Stricter-trans a b none h k = tt
Stricter-trans a none (some z) h k = absurd (cc k.1)
Stricter-trans a (some y) (some z) h k = (h.0, h.1, ground (arith, h.2, k.1, k.2))

IsTighter-refl : (p : SecurityPolicy) → IsTighter p p
IsTighter-refl p = record {
  enabled = λ h. h;
  fail_closed = λ h. h;
  llm_input = λ h. h;
  llm_output = λ h. h;
  mcp_arguments = λ h. h;
  mcp_results = λ h. h;
  incidents = λ h. h;
  content = omega arith;
  stricter = λ c s. Stricter-refl (p.actions c s);
}
  where
    Stricter-refl : (a : Option SecurityAction) → Stricter a a
    Stricter-refl none = tt
    Stricter-refl (some a) = (a, refl, omega arith)

IsTighter-trans : (p q r : SecurityPolicy) → IsTighter p q → IsTighter q r → IsTighter p r
IsTighter-trans p q r h k = record {
  enabled = λ e. h.enabled (k.enabled e);
  fail_closed = λ e. h.fail_closed (k.fail_closed e);
  llm_input = λ e. h.llm_input (k.llm_input e);
  llm_output = λ e. h.llm_output (k.llm_output e);
  mcp_arguments = λ e. h.mcp_arguments (k.mcp_arguments e);
  mcp_results = λ e. h.mcp_results (k.mcp_results e);
  incidents = λ e. h.incidents (k.incidents e);
  content = omega (arith, h.content, k.content);
  stricter = λ c s.
      Stricter-trans (p.actions c s) (q.actions c s) (r.actions c s) (h.stricter c s)
        (k.stricter c s);
}

IsTighter-foldl :
    (acc : SecurityPolicy) (ps : List SecurityPolicy)
    → IsTighter (foldl restrict_with acc ps) acc × All (IsTighter (foldl restrict_with acc ps)) ps
IsTighter-foldl acc [] = (IsTighter-refl acc, tt)
IsTighter-foldl acc (p ∷ ps) =
    let ih = IsTighter-foldl (restrict_with acc p) ps in
    let out = foldl restrict_with (restrict_with acc p) ps in
    (
      IsTighter-trans out (restrict_with acc p) acc ih.0 (IsTighter-restrict_with_left acc p),
      (
        IsTighter-trans out (restrict_with acc p) p ih.0 (IsTighter-restrict_with_right acc p),
        ih.1,
      ),
    )

-- The resolved policy of a hierarchy is at least as tight as each of its levels: what a level
-- switches on is on, what fails closed at a level fails closed, the content limit is that of no
-- level exceeded, and an action that a level sets is kept or raised.
pub resolve_security_hierarchy-IsTighter :
    (ps : List SecurityPolicy) → All (IsTighter (resolve_security_hierarchy ps)) ps
unfolding resolve_security_hierarchy
resolve_security_hierarchy-IsTighter [] = tt
resolve_security_hierarchy-IsTighter (p ∷ ps) = IsTighter-foldl p ps

-- Where the parent sets no action for a category and severity, the child's action replaces the
-- recommended one, also where it is less strict.
pub restrict_with_replaces :
    (p child : SecurityPolicy) (c : SecurityCategory) (s : SecuritySeverity)
    (a recommended : SecurityAction)
    → p.actions c s ≡ none
    → child.actions c s ≡ some a
    → (action p c s recommended ≡ recommended)
      × (action (restrict_with p child) c s recommended ≡ a)
unfolding action restrict_with merge_action priority
restrict_with_replaces p child c s a recommended hp hc = ground (arith, hp, hc)
