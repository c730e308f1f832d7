-- ===== src/Mcp/Server.antt =====
-- crates/gateway-mcp/src/server.rs, transport.rs, session.rs and cache.rs: servers, the trait of a
-- transport as a record over the state `T` of the transports, the sessions and the cache of tools.
use tuenel.Prelude.{
  ℕ, ◌-◌, String, Bool, true, ◌&&◌, ◌||◌, Option, none, some, List, Exec, ltb, leb, if◌then◌else◌,
  is_none, ◌==◌, string_eq, nat_eq, option_eq,
}
use tuenel.Prelude.Maps.{HashMap, get, insert, remove}
use tuenel.Types.Identity.{Uuid, DateTime}
use tuenel.Types.Mcp.{McpServerId, Metadata, GatewayMcpTool, GatewayMcpInvocation, GatewayMcpResult}
use tuenel.Mcp.Errors.{McpError}

pub data McpTransportType : Type 0 where
  stdio streamable_http : McpTransportType

-- A `SecretRef` is its text.
pub record McpServerRecord : Type 0 where
  pub server_id : McpServerId
  pub tenant_id : String
  pub project_id : Option String
  pub name : String
  pub description : Option String
  pub transport_type : McpTransportType
  pub endpoint : Option String
  pub command : Option String
  pub arguments : List String
  pub environment_secret_refs : List String
  pub credential_ref : Option String
  pub enabled : Bool
  pub metadata : Metadata
  pub created_at : DateTime
  pub updated_at : DateTime

unfoldable pub owned_by : McpServerRecord → String → Option String → Bool
owned_by server tenant_id project_id =
    (server.tenant_id == tenant_id)
    && (is_none server.project_id || (server.project_id == project_id))

pub data McpHealthStatus : Type 0 where
  healthy degraded unhealthy unknown : McpHealthStatus

pub record McpHealth : Type 0 where
  pub status : McpHealthStatus
  pub latency_ms : Option ℕ
  pub checked_at : DateTime

pub record SafeMcpServer : Type 0 where
  pub server_id : McpServerId
  pub name : String
  pub description : Option String
  pub transport_type : McpTransportType
  pub enabled : Bool
  pub health : Option McpHealth

pub record McpConnectionContext : Type 0 where
  pub server : McpServerRecord
  pub credential : Option String
  pub environment : List (String × String)

pub record McpSession : Type 0 where
  pub session_id : Uuid
  pub server_id : McpServerId
  pub protocol_version : String
  pub remote_session_id : Option String
  pub created_at : DateTime
  pub expires_at : Option DateTime

pub record McpTransport (T : Type 0) : Type 0 where
  pub initialize : McpConnectionContext → Exec T McpError McpSession
  pub list_tools : McpSession → Exec T McpError (List GatewayMcpTool)
  pub invoke_tool : McpSession → GatewayMcpInvocation → Exec T McpError GatewayMcpResult
  pub health_check : Exec T McpError McpHealth
  pub shutdown : Exec T McpError (Unit {0})

pub record McpTransportResolver (T : Type 0) : Type 0 where
  pub validate : McpServerRecord → Exec T McpError (Unit {0})
  pub resolve : McpServerRecord → Exec T McpError (McpTransport T × McpConnectionContext)

abbrev pub Sessions : Type 0 → Type 0
Sessions T = HashMap McpServerId (McpSession × McpTransport T)

-- `session.expires_at.is_none_or(|expires| expires > now)`
abbrev pub is_live : DateTime → Option DateTime → Bool
is_live now none = true
is_live now (some expires) = ltb now expires

-- SessionManager::get
unfoldable pub get_session :
    {T : Type 0} → DateTime → Sessions T → McpServerId → Option (McpSession × McpTransport T)
get_session now sessions server_id = elim (get sessions server_id) [
  | none ↦ none
  | some entry ↦ if is_live now entry.0.expires_at then some entry else none
]

-- SessionManager::insert
unfoldable pub insert_session : {T : Type 0} → Sessions T → McpSession → McpTransport T → Sessions T
insert_session sessions session transport = insert sessions session.server_id (session, transport)

-- SessionManager::remove: what was there, and what is left
unfoldable pub remove_session :
    {T : Type 0} → Sessions T → McpServerId → Option (McpSession × McpTransport T) × Sessions T
remove_session sessions server_id = (get sessions server_id, remove sessions server_id)

abbrev pub ToolCache : Type 0
ToolCache = HashMap McpServerId (DateTime × List GatewayMcpTool)

-- `now.signed_duration_since(stored).to_std().is_ok_and(|age| age < ttl)`
abbrev pub is_young : ℕ → DateTime → DateTime → Bool
is_young ttl now stored = leb stored now && ltb (now - stored) ttl

-- ToolCache::get
unfoldable pub get_tools : ℕ → DateTime → ToolCache → McpServerId → Option (List GatewayMcpTool)
get_tools ttl now cache server_id = elim (get cache server_id) [
  | none ↦ none
  | some entry ↦ if is_young ttl now entry.0 then some entry.1 else none
]

-- ToolCache::put
unfoldable pub put_tools : DateTime → ToolCache → McpServerId → List GatewayMcpTool → ToolCache
put_tools now cache server_id tools = insert cache server_id (now, tools)

-- ToolCache::invalidate
unfoldable pub invalidate : ToolCache → McpServerId → ToolCache
invalidate cache server_id = remove cache server_id
