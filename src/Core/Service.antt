-- ===== src/Core/Service.antt =====
-- crates/gateway-core/src/lib.rs: the service, and the steps of one attempt at a route. The
-- policy resolver, the security enforcer and the providers are the traits and services that the
-- source calls, as functions; a call of a provider answers `none` where the time-out expires. The
-- logging of a completion is left out.
use Prim.Native.String.{len, slice, ◌++◌}
use text.Mathlib.Text.{starts_with}
use mathlib.Core.List.{filter_map}
use tuenel.Prelude.{
  ℕ, suc, String, Bool, true, false, not, ◌&&◌, Option, none, some, List, [], ◌∷◌, Result, ok, err,
  Exec, map_err, ok_or, ◌>>=◌, ◌>>◌, lift, contains, string_eq, is_empty, if◌then◌else◌,
}
use tuenel.Prelude.Maps.{HashMap, get}
use tuenel.Types.Identity.{Uuid, DateTime, Principal}
use tuenel.Types.Inference.{
  GatewayMessage, GatewayRequest, GatewayResponse, TokenUsage, ModelRoute, prompt_token_upper_bound,
}
use tuenel.Types.Decimal.{DecimalOps}
use tuenel.Types.Usage.{UsageStatus, UsageEvent, QuotaReservation}
use tuenel.Types.Security.{InspectionContent, prompt_text, model_output, InspectionContext}
use tuenel.Policy
use tuenel.Policy.{Policy, PolicyError}
use tuenel.Providers.{ProviderError}
use tuenel.Routing.{StaticRouter, RoutePlan, RoutingError, route_for, resolve}
use tuenel.Security.Errors.{SecurityError}
use tuenel.Providers.Boundary.{ModelProvider}
use tuenel.Metering
use tuenel.Metering.{MeteringService, CostEstimate, cost_for}
use tuenel.Quota
use tuenel.Quota.{QuotaService, QuotaError}

pub data GatewayError : Type 0 where
  routing : RoutingError → GatewayError
  policy : PolicyError → GatewayError
  security : SecurityError → GatewayError
  quota : QuotaError → GatewayError
  provider : ProviderError → GatewayError
  metering : GatewayError

-- SecurityEnforcer::inspect, whose decision the pipeline drops.
abbrev pub Inspect : Type 0 → Type 0
Inspect Z = InspectionContext → InspectionContent → Exec Z SecurityError InspectionContent

-- What the pipeline calls of the enforcer.
pub record Enforcement (Z : Type 0) : Type 0 where
  pub inspect : Inspect Z
  pub enabled_for : InspectionContext → Exec Z SecurityError Bool

pub record GatewayService (F32 Decimal S C P Z : Type 0) : Type 0 where
  pub router : StaticRouter
  pub providers : HashMap String (ModelProvider F32 P)
  pub route_plan : Option RoutePlan
  pub policy_resolver : Principal → Result PolicyError Policy
  pub enforcer : Option (Enforcement Z)
  pub quota_service : QuotaService Decimal S C
  pub metering_service : MeteringService Decimal S

pub record World (S C P Z : Type 0) : Type 0 where
  pub quota_world : Quota.World S C
  pub provider_state : P
  pub security_state : Z

-- The clock readings and the new identifiers of one attempt.
pub record Ticks : Type 0 where
  pub reserved_at : DateTime
  pub reservation_id : Uuid
  pub priced_at : DateTime
  pub event_id : Uuid
  pub occurred_at : DateTime
  pub latency_ms : ℕ

-- str::strip_prefix
unfoldable pub strip_prefix : String → String → Option String
strip_prefix prefix s = if starts_with s prefix then some (slice s (len prefix) (len s)) else none

unfoldable pub model_scopes : Principal → List String
model_scopes p = filter_map (strip_prefix "model:") p.scopes

module _ {F32 Decimal S C P Z : Type 0} (g : GatewayService F32 Decimal S C P Z) where
  unfoldable pub authorize :
      Principal → String → String → ℕ → Exec (World S C P Z) GatewayError (Unit {0})
  authorize principal model operation output_tokens =
      if not (is_empty (model_scopes principal)) && not (contains (model_scopes principal) model)
      then lift (err (policy PolicyError.denied))
      else do
        p ← lift (map_err policy (g.policy_resolver principal))
        lift (map_err policy (Policy.authorize p model operation output_tokens))

  unfoldable pub routes : Principal → String → Result GatewayError (List ModelRoute)
  routes principal model = elim g.route_plan [
    | none ↦ elim (resolve g.router model) [ ok r ↦ ok (r ∷ []) | err e ↦ err (routing e) ]
    | some plan ↦
        map_err routing (route_for plan (some principal.tenant_id) principal.project_id model)
  ]

  unfoldable pub provider_for : ModelRoute → Result GatewayError (ModelProvider F32 P)
  provider_for route = ok_or (get g.providers route.provider) (provider ProviderError.unavailable)

  -- The context of an inspection by this pipeline.
  abbrev pub context_for : Uuid → Principal → String → InspectionContext
  context_for request_id principal stage = record {
    request_id = request_id;
    tenant_id = principal.tenant_id;
    project_id = principal.project_id;
    principal_id = principal.principal_id;
    stage = stage;
    tool_risk = none;
  }

  -- An action of the enforcer.
  abbrev pub on_security :
      {A : Type 0} → Exec Z SecurityError A → Exec (World S C P Z) GatewayError A
  on_security m w =
      let (r, z) = m w.security_state in (map_err security r, record w { security_state = z })

  abbrev pub inspected_text : InspectionContent → String → String
  inspected_text (prompt_text value) old = value
  inspected_text _ old = old

  abbrev pub inspected_output : InspectionContent → String → String
  inspected_output (model_output value) old = value
  inspected_output _ old = old

  -- The loop of `inspect_messages` from a message on, with `index_text` the text of an index.
  unfoldable pub inspect_from :
      (ℕ → String)
      → Inspect Z
      → Uuid
      → Principal
      → ℕ
      → List GatewayMessage
      → Exec (World S C P Z) GatewayError (List GatewayMessage)
  inspect_from index_text inspect request_id principal index [] = lift (ok [])
  inspect_from index_text inspect request_id principal index (m ∷ ms) = do
    content ← on_security (
        inspect (context_for request_id principal ("llm_input:" ++ index_text index))
          (prompt_text m.content))
    rest ← inspect_from index_text inspect request_id principal (suc index) ms
    lift (ok (record m { content = inspected_text content m.content } ∷ rest))

  unfoldable pub inspect_messages :
      (ℕ → String)
      → Uuid
      → Principal
      → List GatewayMessage
      → Exec (World S C P Z) GatewayError (List GatewayMessage)
  inspect_messages index_text request_id principal messages w = elim g.enforcer [
    | none ↦ (ok messages, w)
    | some e ↦ inspect_from index_text e.inspect request_id principal 0 messages w
  ]

  unfoldable pub inspect_response :
      Uuid → Principal → GatewayResponse → Exec (World S C P Z) GatewayError GatewayResponse
  inspect_response request_id principal response w = elim g.enforcer [
    | none ↦ (ok response, w)
    | some e ↦
        (on_security (
              e.inspect (context_for request_id principal "llm_output")
                (model_output response.content))
            >>= λ content.
                lift (ok (record response { content = inspected_output content response.content })))
          w
  ]

  unfoldable pub reserve :
      (ℕ → Option ℕ)
      → Ticks
      → Uuid
      → Principal
      → GatewayRequest F32
      → ModelRoute
      → Exec (World S C P Z) GatewayError QuotaReservation
  reserve from_std ticks request_id principal request route w =
      let (r, q) =
        Quota.reserve from_std g.quota_service ticks.reserved_at ticks.reservation_id request_id
          principal route (prompt_token_upper_bound request) request.generation.max_output_tokens
          w.quota_world in
      (map_err quota r, record w { quota_world = q })

  -- The event that `record_usage` writes.
  unfoldable pub usage_event :
      DecimalOps Decimal → Ticks → QuotaReservation → TokenUsage → UsageStatus → UsageEvent Decimal
  usage_event d ticks r usage status =
      let cost =
        cost_for d g.metering_service ticks.priced_at r.provider r.upstream_model
          usage.prompt_tokens usage.completion_tokens in
      record {
        event_id = ticks.event_id;
        request_id = r.request_id;
        tenant_id = r.tenant_id;
        project_id = r.project_id;
        principal_id = r.principal_id;
        user_id = r.user_id;
        provider = r.provider;
        requested_model = r.requested_model;
        upstream_model = r.upstream_model;
        usage = usage;
        estimated_cost = cost.amount;
        pricing_status = cost.status;
        status = status;
        latency_ms = some ticks.latency_ms;
        occurred_at = ticks.occurred_at;
      }

  -- An action of the ledger, with its failure mapped.
  abbrev pub on_ledger :
      {A : Type 0} → Exec S Metering.MeteringError A → Exec (World S C P Z) GatewayError A
  on_ledger m w =
      let (r, s) = m w.quota_world.store in
      (map_err (λ _. metering) r, record w { quota_world = record w.quota_world { store = s } })

  abbrev pub release_counter : Uuid → World S C P Z → World S C P Z
  release_counter id w = record w {
    quota_world = Quota.release_counter g.quota_service id w.quota_world;
  }

  -- `record`, with `record_usage` in it: the counter is released whatever the ledger answers.
  unfoldable pub record_outcome :
      DecimalOps Decimal
      → Ticks
      → QuotaReservation
      → TokenUsage
      → UsageStatus
      → Exec (World S C P Z) GatewayError (Unit {0})
  record_outcome d ticks r usage status w =
      let (result, w') =
        on_ledger (Metering.finalize g.metering_service r (usage_event d ticks r usage status)) w in
      (result, release_counter r.reservation_id w')

  unfoldable pub record_or_release :
      DecimalOps Decimal
      → Ticks
      → QuotaReservation
      → TokenUsage
      → UsageStatus
      → Bool
      → Exec (World S C P Z) GatewayError (Unit {0})
  record_or_release d ticks r usage status true = do
    on_ledger (Metering.release g.metering_service r.reservation_id)
    λ w. (ok tt, release_counter r.reservation_id w)
  record_or_release d ticks r usage status false = record_outcome d ticks r usage status
