-- ===== src/Tests/Tools.antt =====
-- The theorems on MCP tools, over a repository with one server that has one tool.
use tuenel.Prelude.{
  nat_eq, ℕ, ◌+◌, ◌≡◌, ◌≤◌, refl, true, false, none, some, [], ◌∷◌, ok, err, All, string_eq, ◌⊎◌,
  length,
}
use tuenel.Prelude.Maps.{get}
use tuenel.Types.Json.{object, end}
use tuenel.Types.Mcp.{GatewayMcpTool, GatewayMcpInvocation, GatewayMcpResult}
use tuenel.Mcp.Errors.{McpError}
use tuenel.Mcp.Policy.{McpPolicy, default_policy, or_default, restrict_with, resolve_mcp_hierarchy}
use tuenel.Mcp.Policy.Tighter.{IsTighter, resolve_mcp_hierarchy-IsTighter}
use tuenel.Mcp.Policy.Weaker.{restrict_with_extends}
use tuenel.Mcp.Server.{McpServerRecord, stdio, McpTransport, owned_by}
use tuenel.Mcp.Discovery
use tuenel.Mcp.Discovery.{default_limits, validate_tools}
use tuenel.Mcp.Discovery.Depth.{Checks, validate_tools-Checks}
use tuenel.Mcp.Registry
use tuenel.Mcp.Registry.{
  McpRegistry, RegistryWorld, RegistryTicks, refresh, health, invoke_tool, server_for,
}
use tuenel.Mcp.Registry.Owned.{Sees, transports-Sees}
use tuenel.Mcp.Registry.Fresh.{tools-refresh}
use tuenel.Mcp.Server
use tuenel.Tests.Data.{caller}

abbrev pub server : McpServerRecord
server = record {
  server_id = 7;
  tenant_id = "acme";
  project_id = some "web";
  name = "files";
  description = none;
  transport_type = stdio;
  endpoint = none;
  command = some "files";
  arguments = [];
  environment_secret_refs = [];
  credential_ref = none;
  enabled = true;
  metadata = [];
  created_at = 0;
  updated_at = 0;
}

abbrev pub tool : GatewayMcpTool
tool = record {
  server_id = 7;
  tool_name = "wipe";
  description = none;
  input_schema = object end;
  annotations = record {
    title = none;
    read_only_hint = none;
    destructive_hint = none;
    idempotent_hint = none;
    open_world_hint = none;
    administrator_risk = none;
  };
}

abbrev pub answer : GatewayMcpResult
answer = record { content = []; is_error = false; metadata = [] }

-- A transport that counts its calls.
abbrev counting : McpTransport ℕ
counting = record {
  initialize = λ context n. (
    ok (record {
      session_id = 1;
      server_id = 7;
      protocol_version = "1";
      remote_session_id = none;
      created_at = 0;
      expires_at = none;
    }),
    n,
  );
  list_tools = λ _ n. (ok (tool ∷ []), n + 1);
  invoke_tool = λ _ _ n. (ok answer, n + 1);
  health_check = λ n. (err McpError.transport, n + 1);
  shutdown = λ n. (ok tt, n);
}

abbrev pub registry : McpRegistry (Unit {0}) ℕ
registry = record {
  repository = record {
    insert_server = λ _ s. (ok tt, s);
    update_server = λ _ s. (ok tt, s);
    delete_server = λ _ _ s. (ok true, s);
    server = λ _ _ s. (ok (some server), s);
    servers = λ _ _ s. (ok (server ∷ []), s);
    replace_tools = λ _ _ _ s. (ok tt, s);
    tools = λ _ _ s. (ok (tool ∷ []), s);
    update_tool_annotations = λ _ _ _ _ s. (ok true, s);
    latest_health = λ _ _ s. (ok none, s);
    record_health = λ _ _ _ s. (ok tt, s);
  };
  resolver = record {
    validate = λ _ n. (ok tt, n);
    resolve = λ found n.
        (ok (counting, record { server = found; credential = none; environment = [] }), n);
  };
  cache_ttl = 60;
  schema_limits = default_limits;
  to_vec = λ _. some "{}";
  sha256 = λ text. text;
}

abbrev pub servers : RegistryWorld (Unit {0}) ℕ
servers = record { repository_state = tt; transports = 0; sessions = []; cache = [] }

abbrev pub registry_ticks : RegistryTicks
registry_ticks = record {
  session_read_at = 5;
  cache_read_at = 6;
  cached_at = 5;
  health_checked_at = 5;
  health_latency_ms = 1;
}

abbrev pub invocation : GatewayMcpInvocation
invocation = record { server_id = 7; tool_name = "wipe"; arguments = object end; metadata = [] }

abbrev strict : McpPolicy
strict = record default_policy { denied_tools = "wipe" ∷ []; maximum_calls_per_day = some 10 }

abbrev lax : McpPolicy
lax = record default_policy { maximum_calls_per_day = some 20 }

abbrev restricted : McpPolicy
restricted = record default_policy {
  argument_restrictions = ("read", ("/path", object end ∷ []) ∷ []) ∷ [];
}

resolve_mcp_hierarchy-IsTighter_example :
    All (λ p. IsTighter p (resolve_mcp_hierarchy (strict ∷ lax ∷ []))) (strict ∷ lax ∷ [])
resolve_mcp_hierarchy-IsTighter_example = resolve_mcp_hierarchy-IsTighter (strict ∷ lax ∷ [])

restrict_with_extends_example :
    get (or_default (get (restrict_with strict restricted).argument_restrictions "read")) "/path"
    ≡ some (object end ∷ [])
restrict_with_extends_example =
    restrict_with_extends strict restricted "read" "/path" (object end ∷ []) refl

validate_tools-Checks_example :
    (length (tool ∷ []) ≤ 10000)
    × Checks (λ _. some "{}") (λ text. text) default_limits (tool ∷ []) ((tool, "{}") ∷ [])
unfolding validate_tools Discovery.validate_each Discovery.validate_tool Discovery.validate_value
    Discovery.in_depth Discovery.in_object Discovery.is_schema Discovery.lookup
    Discovery.field_count
validate_tools-Checks_example =
    validate_tools-Checks (λ _. some "{}") (λ text. text) default_limits (tool ∷ [])
      ((tool, "{}") ∷ []) refl

transports-Sees_example :
    (((invoke_tool registry registry_ticks caller invocation servers).1.transports ≡ 0)
      ⊎ Sees registry caller 7 servers)
    × (((refresh registry registry_ticks caller 7 servers).1.transports ≡ 0)
        ⊎ Sees registry caller 7 servers)
    × (((health registry caller 7 servers).1.transports ≡ 0) ⊎ Sees registry caller 7 servers)
transports-Sees_example = transports-Sees registry registry_ticks caller invocation servers

tools-refresh_example :
    (Registry.tools registry registry_ticks caller
      (some 7)
      (refresh registry registry_ticks caller 7 servers).1).0
    ≡ ok (tool ∷ [])
unfolding refresh server_for owned_by Registry.session Server.get_session Server.insert_session
    validate_tools Discovery.validate_each Discovery.validate_tool Discovery.validate_value
    Discovery.in_depth Discovery.in_object Discovery.is_schema Discovery.lookup
    Discovery.field_count get
tools-refresh_example =
    tools-refresh registry registry_ticks registry_ticks caller 7 servers (tool ∷ []) server refl
      refl refl
