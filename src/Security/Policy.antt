-- ===== src/Security/Policy.antt =====
-- crates/gateway-security/src/policy.rs. The map of actions by category and severity is a function
-- into `Option`, as the program only looks entries up and sets them.
pub mod Restrict
use Prim.Native.Nat.{min}
use mathlib.Core.List.{foldl}
use tuenel.Prelude.{
  ℕ, Bool, true, false, ◌&&◌, ◌||◌, Option, none, some, List, [], ◌∷◌, ltb, if◌then◌else◌,
}
use tuenel.Types.Security.{SecurityCategory, SecuritySeverity, SecurityAction, allow, priority}

abbrev pub Actions : Type 0
Actions = SecurityCategory → SecuritySeverity → Option SecurityAction

pub record SecurityPolicy : Type 0 where
  pub enabled : Bool
  pub fail_open : Bool
  pub inspect_llm_input : Bool
  pub inspect_llm_output : Bool
  pub inspect_mcp_arguments : Bool
  pub inspect_mcp_results : Bool
  pub create_incidents : Bool
  pub maximum_content_bytes : ℕ
  pub actions : Actions

-- impl Default for SecurityPolicy
abbrev pub default : SecurityPolicy
default = record {
  enabled = true;
  fail_open = false;
  inspect_llm_input = true;
  inspect_llm_output = false;
  inspect_mcp_arguments = true;
  inspect_mcp_results = true;
  create_incidents = true;
  maximum_content_bytes = 1048576;
  actions = λ _ _. none;
}

unfoldable pub action :
    SecurityPolicy → SecurityCategory → SecuritySeverity → SecurityAction → SecurityAction
action p category severity recommended = elim (p.actions category severity) [
  | none ↦ recommended
  | some a ↦ a
]

-- The entry after `or_insert(Allow)` and the raise to the child's action.
abbrev pub raise_action : Option SecurityAction → SecurityAction → SecurityAction
raise_action none a = if ltb (priority allow) (priority a) then a else allow
raise_action (some current) a = if ltb (priority current) (priority a) then a else current

-- The loop over the child's entries, at one category and severity.
unfoldable pub merge_action : Option SecurityAction → Option SecurityAction → Option SecurityAction
merge_action current none = current
merge_action current (some a) = some (raise_action current a)

unfoldable pub restrict_with : SecurityPolicy → SecurityPolicy → SecurityPolicy
restrict_with p child = record {
  enabled = p.enabled || child.enabled;
  fail_open = p.fail_open && child.fail_open;
  inspect_llm_input = p.inspect_llm_input || child.inspect_llm_input;
  inspect_llm_output = p.inspect_llm_output || child.inspect_llm_output;
  inspect_mcp_arguments = p.inspect_mcp_arguments || child.inspect_mcp_arguments;
  inspect_mcp_results = p.inspect_mcp_results || child.inspect_mcp_results;
  create_incidents = p.create_incidents || child.create_incidents;
  maximum_content_bytes = min p.maximum_content_bytes child.maximum_content_bytes;
  actions = λ c s. merge_action (p.actions c s) (child.actions c s);
}

unfoldable pub resolve_security_hierarchy : List SecurityPolicy → SecurityPolicy
resolve_security_hierarchy [] = default
resolve_security_hierarchy (first ∷ policies) = foldl restrict_with first policies
