-- ===== src/Mcp/Policy.antt =====
-- crates/gateway-mcp/src/policy.rs: policies on MCP servers and tools, their restriction by a child
-- policy, and the risk of a tool. A `HashSet` is a list. JSON pointers, the equality of JSON values
-- and the lower case of a character are parameters.
pub mod Tighter
pub mod Weaker
use Prim.Native.Char.{Char}
use Prim.Native.String.{len, find, ◌++◌}
use tuenel.Prelude.{
  ℕ, String, Bool, true, false, not, ◌&&◌, ◌||◌, Option, none, some, List, [], ◌∷◌, Result, ok, err,
  ltb, leb, if◌then◌else◌, is_empty, is_some, any, filter, contains, string_eq, nat_eq, Eq,
}
use mathlib.Core.List.{foldl, ◌++◌ as append}
use tuenel.Prelude.Maps.{HashMap, get, insert}
use tuenel.Types.Json.{Value}
use tuenel.Types.Security.{SecurityAction, priority, allow, require_approval}
use tuenel.Types.Mcp.{
  McpServerId, GatewayMcpTool, ToolRiskLevel, read_only, mutating, destructive, privileged, unknown,
}
use tuenel.Policy.{min_opt}
use tuenel.Mcp.Errors.{McpError, server_not_allowed, tool_not_allowed}

pub record McpPolicy : Type 0 where
  pub allowed_servers : List McpServerId
  pub denied_servers : List McpServerId
  pub allowed_tools : List String
  pub denied_tools : List String
  pub tool_actions : HashMap String SecurityAction
  pub risk_overrides : HashMap String ToolRiskLevel
  pub argument_restrictions : HashMap String (HashMap String (List Value))
  pub maximum_calls_per_minute : Option ℕ
  pub maximum_calls_per_day : Option ℕ
  pub maximum_server_concurrent_calls : Option ℕ
  pub maximum_tool_concurrent_calls : Option ℕ
  pub maximum_request_bytes : Option ℕ
  pub maximum_response_bytes : Option ℕ
  pub maximum_execution_ms : Option ℕ
  pub default_mutating_action : Option SecurityAction

-- The derived `Default`.
abbrev pub default_policy : McpPolicy
default_policy = record {
  allowed_servers = [];
  denied_servers = [];
  allowed_tools = [];
  denied_tools = [];
  tool_actions = [];
  risk_overrides = [];
  argument_restrictions = [];
  maximum_calls_per_minute = none;
  maximum_calls_per_day = none;
  maximum_server_concurrent_calls = none;
  maximum_tool_concurrent_calls = none;
  maximum_request_bytes = none;
  maximum_response_bytes = none;
  maximum_execution_ms = none;
  default_mutating_action = none;
}

unfoldable pub risk_priority : ToolRiskLevel → ℕ
risk_priority read_only = 0
risk_priority mutating = 1
risk_priority unknown = 2
risk_priority destructive = 3
risk_priority privileged = 4

-- `left.into_iter().chain(right).max_by_key(priority)`: the last of the greatest.
unfoldable pub stricter : Option SecurityAction → Option SecurityAction → Option SecurityAction
stricter none right = right
stricter (some a) none = some a
stricter (some a) (some b) = if leb (priority a) (priority b) then some b else some a

module _ {A : Type 0} ⦃e : Eq A⦄ where
  unfoldable pub intersect : List A → List A → List A
  intersect left right =
      if is_empty left
      then right
      else if is_empty right
      then left
      else filter (λ x. contains right x) left

  -- HashSet::union
  unfoldable pub union : List A → List A → List A
  union left right = append left (filter (λ x. not (contains left x)) right)

-- `entry(name).and_modify(..).or_insert(v)`, where a value with a greater key replaces.
unfoldable pub merge_one : {V : Type 0} → (V → ℕ) → HashMap String V → String → V → HashMap String V
merge_one key m name v = elim (get m name) [
  | none ↦ insert m name v
  | some current ↦ if ltb (key current) (key v) then insert m name v else m
]

-- The loops of `restrict_with` over a map of the child.
unfoldable pub merge_max :
    {V : Type 0} → (V → ℕ) → HashMap String V → HashMap String V → HashMap String V
merge_max key m [] = m
merge_max key m ((name, v) ∷ child) = merge_max key (merge_one key m name v) child

-- HashMap::extend
unfoldable pub extend : {V : Type 0} → HashMap String V → HashMap String V → HashMap String V
extend m [] = m
extend m ((name, v) ∷ more) = extend (insert m name v) more

abbrev pub or_default : {V : Type 0} → Option (HashMap String V) → HashMap String V
or_default none = []
or_default (some m) = m

unfoldable pub merge_restrictions :
    HashMap String (HashMap String (List Value))
    → HashMap String (HashMap String (List Value))
    → HashMap String (HashMap String (List Value))
merge_restrictions m [] = m
merge_restrictions m ((tool, values) ∷ child) =
    merge_restrictions (insert m tool (extend (or_default (get m tool)) values)) child

unfoldable pub restrict_with : McpPolicy → McpPolicy → McpPolicy
restrict_with p child = record {
  allowed_servers = intersect p.allowed_servers child.allowed_servers;
  denied_servers = union p.denied_servers child.denied_servers;
  allowed_tools = intersect p.allowed_tools child.allowed_tools;
  denied_tools = union p.denied_tools child.denied_tools;
  tool_actions = merge_max priority p.tool_actions child.tool_actions;
  risk_overrides = merge_max risk_priority p.risk_overrides child.risk_overrides;
  argument_restrictions = merge_restrictions p.argument_restrictions child.argument_restrictions;
  maximum_calls_per_minute = min_opt p.maximum_calls_per_minute child.maximum_calls_per_minute;
  maximum_calls_per_day = min_opt p.maximum_calls_per_day child.maximum_calls_per_day;
  maximum_server_concurrent_calls =
      min_opt p.maximum_server_concurrent_calls child.maximum_server_concurrent_calls;
  maximum_tool_concurrent_calls =
      min_opt p.maximum_tool_concurrent_calls child.maximum_tool_concurrent_calls;
  maximum_request_bytes = min_opt p.maximum_request_bytes child.maximum_request_bytes;
  maximum_response_bytes = min_opt p.maximum_response_bytes child.maximum_response_bytes;
  maximum_execution_ms = min_opt p.maximum_execution_ms child.maximum_execution_ms;
  default_mutating_action = stricter p.default_mutating_action child.default_mutating_action;
}

unfoldable pub resolve_mcp_hierarchy : List McpPolicy → McpPolicy
resolve_mcp_hierarchy policies = foldl restrict_with default_policy policies

-- The methods of a JSON value that `authorize` calls.
pub record ValueOps : Type 0 where
  pub pointer : Value → String → Option Value
  pub value_eq : Value → Value → Bool

-- The test of one restricted argument: is its value outside the list?
unfoldable pub is_outside : ValueOps → Value → String × List Value → Bool
is_outside v arguments (path, allowed) = elim (v.pointer arguments path) [
  | none ↦ false
  | some value ↦ not (any (λ a. v.value_eq a value) allowed)
]

unfoldable pub authorize :
    ValueOps → McpPolicy → McpServerId → String → Value → Result McpError (Unit {0})
authorize v p server_id tool_name arguments =
    if contains p.denied_servers server_id
      || (not (is_empty p.allowed_servers) && not (contains p.allowed_servers server_id))
    then err server_not_allowed
    else if contains p.denied_tools tool_name
        || (not (is_empty p.allowed_tools) && not (contains p.allowed_tools tool_name))
    then err tool_not_allowed
    else if any (is_outside v arguments) (or_default (get p.argument_restrictions tool_name))
    then err tool_not_allowed
    else ok tt

-- The action of a risk where the policy sets none for the tool.
abbrev pub risk_action : Option SecurityAction → ToolRiskLevel → SecurityAction
risk_action default_action read_only = allow
risk_action none mutating = require_approval
risk_action (some a) mutating = a
risk_action default_action destructive = require_approval
risk_action default_action privileged = require_approval
risk_action default_action unknown = require_approval

unfoldable pub action : McpPolicy → GatewayMcpTool → ToolRiskLevel → SecurityAction
action p tool risk = elim (get p.tool_actions tool.tool_name) [
  | none ↦ risk_action p.default_mutating_action risk
  | some a ↦ a
]

-- str::contains
abbrev pub text_contains : String → String → Bool
text_contains text word = leb (find text word) (len text)

-- The risk that the words of a tool's name and description stand for.
unfoldable pub risk_of_text : String → ToolRiskLevel
risk_of_text text =
    if any (text_contains text)
      ("delete" ∷ "destroy" ∷ "drop" ∷ "remove" ∷ "purge" ∷ "terminate" ∷ [])
    then destructive
    else if any (text_contains text)
        ("admin" ∷ "sudo" ∷ "permission" ∷ "credential" ∷ "secret" ∷ [])
    then privileged
    else if any (text_contains text)
        ("create" ∷ "update" ∷ "write" ∷ "send" ∷ "merge" ∷ "execute" ∷ "invoke" ∷ [])
    then mutating
    else if any (text_contains text)
        ("get" ∷ "list" ∷ "read" ∷ "search" ∷ "find" ∷ "show" ∷ "describe" ∷ [])
    then read_only
    else unknown

abbrev pub is_hinted : Option Bool → Bool
is_hinted (some true) = true
is_hinted (some false) = false
is_hinted none = false

abbrev pub text_or_empty : Option String → String
text_or_empty none = ""
text_or_empty (some text) = text

unfoldable pub classify_tool : (String → String) → GatewayMcpTool → ToolRiskLevel
classify_tool to_ascii_lowercase tool = elim tool.annotations.administrator_risk [
  | some risk ↦ risk
  | none ↦
      if is_hinted tool.annotations.destructive_hint
      then destructive
      else if is_hinted tool.annotations.read_only_hint
      then read_only
      else risk_of_text
          (to_ascii_lowercase ((tool.tool_name ++ " ") ++ text_or_empty tool.description))
]
