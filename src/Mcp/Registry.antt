-- ===== src/Mcp/Registry.antt =====
-- crates/gateway-mcp/src/registry.rs: the servers of a tenant, their sessions and their tools, with
-- the repository of McpRepository as a record over its state `R`. The metrics are left out; the
-- readings of the clock are arguments.
pub mod Owned
pub mod Fresh
use tuenel.Prelude.{
  ℕ, String, Bool, true, false, ◌&&◌, Option, none, some, List, [], ◌∷◌, map, Result, ok, err, Exec,
  ◌>>=◌, ◌>>◌, lift, pure, ok_or, filter, contains, is_ok, if◌then◌else◌, string_eq, nat_eq,
}
use tuenel.Types.Identity.{DateTime, Principal}
use tuenel.Types.Json.{Value}
use tuenel.Types.Mcp.{
  McpServerId, ToolAnnotations, GatewayMcpTool, GatewayMcpInvocation, GatewayMcpResult,
}
use tuenel.Mcp.Errors.{McpError, server_not_found}
use tuenel.Mcp.Server.{
  McpServerRecord, owned_by, McpHealth, McpHealthStatus, healthy, unhealthy, SafeMcpServer,
  McpSession, McpTransport, McpTransportResolver, Sessions, get_session, insert_session,
  remove_session, ToolCache, get_tools, put_tools, invalidate,
}
use tuenel.Mcp.Discovery.{SchemaLimits, validate_tools}

pub record McpRepository (R : Type 0) : Type 0 where
  pub insert_server : McpServerRecord → Exec R McpError (Unit {0})
  pub update_server : McpServerRecord → Exec R McpError (Unit {0})
  pub delete_server : String → McpServerId → Exec R McpError Bool
  pub server : String → McpServerId → Exec R McpError (Option McpServerRecord)
  pub servers : String → Option String → Exec R McpError (List McpServerRecord)
  pub replace_tools :
      String → McpServerId → List (GatewayMcpTool × String) → Exec R McpError (Unit {0})
  pub tools : String → Option McpServerId → Exec R McpError (List GatewayMcpTool)
  pub update_tool_annotations :
      String → McpServerId → String → ToolAnnotations → Exec R McpError Bool
  pub latest_health : String → McpServerId → Exec R McpError (Option McpHealth)
  pub record_health : String → McpServerId → McpHealth → Exec R McpError (Unit {0})

pub record McpRegistry (R T : Type 0) : Type 0 where
  pub repository : McpRepository R
  pub resolver : McpTransportResolver T
  pub cache_ttl : ℕ
  pub schema_limits : SchemaLimits
  pub to_vec : Value → Option String
  pub sha256 : String → String

pub record RegistryWorld (R T : Type 0) : Type 0 where
  pub repository_state : R
  pub transports : T
  pub sessions : Sessions T
  pub cache : ToolCache

-- The readings of the clock of an operation.
pub record RegistryTicks : Type 0 where
  pub session_read_at : DateTime
  pub cache_read_at : DateTime
  pub cached_at : DateTime
  pub health_checked_at : DateTime
  pub health_latency_ms : ℕ

module _ {R T : Type 0} (g : McpRegistry R T) where
  abbrev pub on_store : {A : Type 0} → Exec R McpError A → Exec (RegistryWorld R T) McpError A
  on_store m w = let (r, s) = m w.repository_state in (r, record w { repository_state = s })

  abbrev pub on_transport : {A : Type 0} → Exec T McpError A → Exec (RegistryWorld R T) McpError A
  on_transport m w = let (r, s) = m w.transports in (r, record w { transports = s })

  unfoldable pub validate : McpServerRecord → Exec (RegistryWorld R T) McpError (Unit {0})
  validate server = on_transport (g.resolver.validate server)

  unfoldable pub register : McpServerRecord → Exec (RegistryWorld R T) McpError (Unit {0})
  register server = do validate server; on_store (g.repository.insert_server server); pure tt

  -- `if let Some(transport) = sessions.remove(id) { let _ = transport.shutdown(); }`
  unfoldable pub shut_down : McpServerId → RegistryWorld R T → RegistryWorld R T
  shut_down server_id w =
      let (found, left) = remove_session w.sessions server_id in
      let w' : RegistryWorld R T = record w { sessions = left } in
      elim found [
        | none ↦ w'
        | some entry ↦ record w' { transports = (entry.1.shutdown w.transports).1 }
      ]

  abbrev pub forget : McpServerId → RegistryWorld R T → RegistryWorld R T
  forget server_id w = shut_down server_id (record w { cache = invalidate w.cache server_id })

  unfoldable pub update : McpServerRecord → Exec (RegistryWorld R T) McpError (Unit {0})
  update server = do
    validate server
    λ w. on_store (g.repository.update_server server) (forget server.server_id w)

  unfoldable pub delete : String → McpServerId → Exec (RegistryWorld R T) McpError Bool
  delete tenant_id server_id w =
      on_store (g.repository.delete_server tenant_id server_id) (forget server_id w)

  unfoldable pub annotate :
      String → McpServerId → String → ToolAnnotations → Exec (RegistryWorld R T) McpError Bool
  annotate tenant_id server_id tool_name annotations =
      on_store (g.repository.update_tool_annotations tenant_id server_id tool_name annotations)

  -- The filter on servers: enabled, and owned by the principal's tenant and project.
  abbrev pub is_visible : Principal → McpServerRecord → Bool
  is_visible p server = server.enabled && owned_by server p.tenant_id p.project_id

  abbrev pub visible : Principal → Option McpServerRecord → Option McpServerRecord
  visible p none = none
  visible p (some server) = if is_visible p server then some server else none

  unfoldable pub server_for :
      Principal → McpServerId → Exec (RegistryWorld R T) McpError McpServerRecord
  server_for p server_id = do
    found ← on_store (g.repository.server p.tenant_id server_id)
    lift (ok_or (visible p found) server_not_found)

  unfoldable pub admin_server_for :
      String → McpServerId → Exec (RegistryWorld R T) McpError McpServerRecord
  admin_server_for tenant_id server_id = do
    found ← on_store (g.repository.server tenant_id server_id)
    lift (ok_or found server_not_found)

  -- The loop that joins the servers with their latest health.
  unfoldable pub safe_each :
      String → List McpServerRecord → Exec (RegistryWorld R T) McpError (List SafeMcpServer)
  safe_each tenant_id [] = pure []
  safe_each tenant_id (server ∷ servers) = do
    health ← on_store (g.repository.latest_health tenant_id server.server_id)
    rest ← safe_each tenant_id servers
    pure (
        record {
          server_id = server.server_id;
          name = server.name;
          description = server.description;
          transport_type = server.transport_type;
          enabled = server.enabled;
          health = health;
        }
        ∷ rest)

  unfoldable pub admin_safe_servers :
      String → Exec (RegistryWorld R T) McpError (List SafeMcpServer)
  admin_safe_servers tenant_id = do
    servers ← on_store (g.repository.servers tenant_id none)
    safe_each tenant_id servers

  unfoldable pub safe_servers : Principal → Exec (RegistryWorld R T) McpError (List SafeMcpServer)
  safe_servers p = do
    servers ← on_store (g.repository.servers p.tenant_id p.project_id)
    safe_each p.tenant_id (filter (is_visible p) servers)

  unfoldable pub session :
      RegistryTicks
      → McpServerRecord
      → Exec (RegistryWorld R T) McpError (McpSession × McpTransport T)
  session ticks server w = elim (get_session ticks.session_read_at w.sessions server.server_id) [
    | some entry ↦ (ok entry, w)
    | none ↦
        (on_transport (g.resolver.resolve server) >>= λ resolved.
        on_transport (resolved.0.initialize resolved.1) >>= λ opened. λ v. (
          ok (opened, resolved.0),
          record v { sessions = insert_session v.sessions opened resolved.0 },
        ))
          w
  ]

  unfoldable pub refresh :
      RegistryTicks
      → Principal
      → McpServerId
      → Exec (RegistryWorld R T) McpError (List GatewayMcpTool)
  refresh ticks p server_id = do
    server ← server_for p server_id
    opened ← session ticks server
    tools ← on_transport (opened.1.list_tools opened.0)
    validated ← lift (validate_tools g.to_vec g.sha256 g.schema_limits tools)
    on_store (g.repository.replace_tools p.tenant_id server_id validated)
    λ w.
        let safe = map (λ (entry : GatewayMcpTool × String). entry.0) validated in
        (ok safe, record w { cache = put_tools ticks.cached_at w.cache server_id safe })

  -- `tools` of all servers of a principal.
  unfoldable pub all_tools : Principal → Exec (RegistryWorld R T) McpError (List GatewayMcpTool)
  all_tools p = do
    tools ← on_store (g.repository.tools p.tenant_id none)
    servers ← on_store (g.repository.servers p.tenant_id p.project_id)
    let allowed = map (λ (s : McpServerRecord). s.server_id) (filter (is_visible p) servers)
    pure (filter (λ (tool : GatewayMcpTool). contains allowed tool.server_id) tools)

  unfoldable pub tools :
      RegistryTicks
      → Principal
      → Option McpServerId
      → Exec (RegistryWorld R T) McpError (List GatewayMcpTool)
  tools ticks p none = all_tools p
  tools ticks p (some server_id) = do
    server_for p server_id
    λ w. elim (get_tools g.cache_ttl ticks.cache_read_at w.cache server_id) [
      | some cached ↦ (ok cached, w)
      | none ↦ on_store (g.repository.tools p.tenant_id (some server_id)) w
    ]

  unfoldable pub health : Principal → McpServerId → Exec (RegistryWorld R T) McpError McpHealth
  health p server_id = do
    server ← server_for p server_id
    resolved ← on_transport (g.resolver.resolve server)
    checked ← on_transport resolved.0.health_check
    on_store (g.repository.record_health p.tenant_id server_id checked)
    pure checked

  -- The health that the outcome of a call stands for.
  abbrev pub call_health : RegistryTicks → Bool → McpHealth
  call_health ticks worked = record {
    status = if worked then healthy else unhealthy;
    latency_ms = some ticks.health_latency_ms;
    checked_at = ticks.health_checked_at;
  }

  -- `invoke`: the health is recorded in any case, and a failure to record it is dropped.
  unfoldable pub invoke_tool :
      RegistryTicks
      → Principal
      → GatewayMcpInvocation
      → Exec (RegistryWorld R T) McpError GatewayMcpResult
  invoke_tool ticks p invocation = do
    server ← server_for p invocation.server_id
    opened ← session ticks server
    λ w.
        let (result, v) = on_transport (opened.1.invoke_tool opened.0 invocation) w in
        (
          result,
          (on_store
              (g.repository.record_health p.tenant_id server.server_id
                (call_health ticks (is_ok result)))
              v).1,
        )
