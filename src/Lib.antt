-- ===== src/Lib.antt =====
-- The Tuenel gateway: policies, routing, quota, metering and security of the inference pipeline,
-- the gateway of MCP tools, approvals, and virtual keys.
--
-- A completion (GatewayService::execute in crates/gateway-core/src/lib.rs) authorizes the
-- caller, inspects the messages, asks the route plan for routes, and tries them in order: it
-- reserves tokens in the store, calls the provider, and records the usage or releases the
-- reservation; a transient failure moves on to the next route. Responses requests, embeddings
-- and streams go through the same loop; a stream is read by a task that records its usage at the
-- end. The call of an MCP tool (McpInvocationService::invoke in
-- crates/gateway-mcp/src/invocation.rs) asks the registry for the server and the tool, the
-- policy for its permission, the enforcer for its arguments and its result, and, where these
-- require it, the approvals for a claim. The other parts are the services that these two call,
-- and the types that they share.
--
-- Files, with the code that each models:
--   Types       crates/gateway-types/src/lib.rs: one child module for each family of types
--   Policy      crates/gateway-policy/src/lib.rs: policies and their hierarchy
--   Routing     crates/gateway-routing/src/lib.rs: route plans and the choice of routes
--   Store       crates/gateway-store/src/lib.rs (Boundary) and stores/store-memory/src/lib.rs
--               (Memory)
--   Providers   crates/gateway-providers/src/lib.rs and health.rs: the trait of a provider
--               (Boundary), errors and the circuit state
--   Pricing     crates/gateway-pricing/src/lib.rs: price windows
--   Metering    crates/gateway-metering/src/lib.rs: costs and the finalization of usage
--   Quota       crates/gateway-quota/src/lib.rs: reservations with a rate counter
--   Security    crates/gateway-security/src: policies, decisions and the inspection pipeline
--               (Decision), redaction (Redaction), the enforcer around them (Enforcer, Rules)
--   Approval    crates/gateway-approval/src: approval requests and the claims of retries
--   Incidents   crates/gateway-incidents/src: security incidents
--   Events      crates/gateway-events/src/lib.rs: audit events
--   Keys        crates/gateway-keys/src/lib.rs: virtual keys
--   Mcp         crates/gateway-mcp/src: policies on tools (Policy), servers, sessions and the cache
--               (Server), the check of listed tools (Discovery), the registry (Registry) and the
--               call of a tool (Calls, Consent, Outcome, Invocation)
--   Core        crates/gateway-core/src/lib.rs: the service (Service), `execute` (Execute), the other
--               requests (Inputs, Fallback), streams and their tasks (Streams, Inspected)
--   Prelude     tests, lists, results, u64 and i8 arithmetic, and maps that the parts share
--   Tests       concrete inputs
-- The children of a part that hold no definitions of the code are named for what they prove.
--
-- Correspondence. A service is a record of its collaborators, and a method of a service is a
-- function of the same name. State is passed on: an `Exec S E A` takes a state to a result and a
-- state, so what a failed call has changed stays changed. An async call that holds one lock is
-- one step. The trait GatewayStore is a record of operations over the state of an
-- implementation, and memory_store fills it. Maps are lists of entries, numbers of 64 bits are
-- natural numbers that wrap at 2 ^ 64 where the source adds them without a check, as a release
-- build does.
--
-- Where a method's name would stand for two things, its function is named for what it acts on,
-- as get_approval for ApprovalService::get. The pipelines take the enforcer as a function. A
-- provider's stream is the list of its items, and the client of a stream a receiver that takes a
-- number of messages and then goes away; the spawned task of a stream is a function that is
-- applied later. A call that a time-out cuts off leaves any state at all.
--
-- Parameters: providers, inspectors, the enforcer in Core, the resolver of policies, the rate
-- counter, the catalog of prices, the repositories of approvals, incidents and security, the
-- printer and the parser of JSON, JSON pointers, the repositories, the transports and the quota
-- of the MCP gateway, base64, SHA-256 and Argon2, the operations of decimals and of f32, the
-- calendar of chrono, the text of a Uuid, the length of a content's JSON, the whitespace of a
-- character, and the readings of the clock and new identifiers, which are arguments (Ticks in
-- Core).
--
-- Bounds and fuel: every loop is structural recursion on a list, a text or a JSON value; no fuel
-- is used. The sums of tokens are exact below 2 ^ 64, a hypothesis where a theorem needs it.
--
-- Not modelled: logging and metrics, the HTTP server and the provider clients (I/O), the
-- PostgreSQL and Redis stores (SQL and Lua that other programs run), the transports of MCP, web
-- sessions, entitlements, billing, and the web application.
pub mod Prelude
pub mod Types
pub mod Policy
pub mod Routing
pub mod Store
pub mod Providers
pub mod Pricing
pub mod Metering
pub mod Quota
pub mod Security
pub mod Core
pub mod Approval
pub mod Incidents
pub mod Keys
pub mod Events
pub mod Mcp
pub mod Tests
