-- ===== src/Mcp/Policy/Weaker.antt =====
-- Where a child policy on MCP tools weakens its parent (crates/gateway-mcp/src/policy.rs).
use tuenel.Prelude.{String, ◌≡◌, some, List, [], ◌∷◌, arith, string_eq}
use tuenel.Prelude.Maps.{get, insert, get-insert}
use tuenel.Types.Json.{Value}
use tuenel.Mcp.Policy.{McpPolicy, merge_restrictions, extend, or_default, restrict_with}

-- If a child policy lists the values of one argument of a tool, then the restricted policy allows
-- exactly the values of that list, whatever values the parent lists for the same argument.
pub restrict_with_extends :
    (p child : McpPolicy) (tool path : String) (own : List Value)
    → child.argument_restrictions ≡ ((tool, (path, own) ∷ []) ∷ [])
    → get (or_default (get (restrict_with p child).argument_restrictions tool)) path ≡ some own
unfolding restrict_with merge_restrictions extend
restrict_with_extends p child tool path own only =
    let parent = or_default (get p.argument_restrictions tool) in
    ground (
      arith,
      only,
      get-insert p.argument_restrictions tool (insert parent path own) tool,
      get-insert parent path own path,
      string_eq.beq_iff tool tool,
      string_eq.beq_iff path path,
    )
