-- ===== src/Core/Memory.antt =====
-- The gateway over the in-memory store, and what each step of an attempt does to the map of
-- reservations (crates/gateway-core/src/lib.rs, stores/store-memory/src/lib.rs).
use tuenel.Prelude.{
  ℕ, String, ◌≡◌, refl, Bool, true, false, Option, Result, ok, err, arith, nat_eq, string_eq,
}
use tuenel.Prelude.Maps.{HashMap, insert, remove}
use tuenel.Types.Identity.{Uuid, Principal}
use tuenel.Types.Inference.{GatewayRequest, GatewayResponse, TokenUsage, ModelRoute}
use tuenel.Types.Decimal.{DecimalOps}
use tuenel.Types.Usage.{QuotaReservation, UsageStatus, succeeded}
use tuenel.Policy.{Policy, PolicyError}
use tuenel.Routing.{StaticRouter, RoutePlan}
use tuenel.Store.Memory.{
  Calendar, State, memory_store, reserve_quota, finalize_usage, release_reservation,
}
use tuenel.Providers.Boundary.{ModelProvider}
use tuenel.Metering
use tuenel.Metering.{Pricing, PricingCatalog, MeteringService}
use tuenel.Quota
use tuenel.Quota.{InferenceQuotaCounter, QuotaService}
use tuenel.Core.Service.{
  GatewayError, GatewayService, Enforcement, World, Ticks, inspect_response, reserve,
  record_outcome, record_or_release,
}
use tuenel.Core.Execute.{call, answered}

-- What a gateway over the in-memory store is assembled from.
pub record MemoryConfig (F32 Decimal C P Z : Type 0) : Type 0 where
  pub calendar : Calendar
  pub uuid_text : Uuid → String
  pub decimals : DecimalOps Decimal
  pub from_std : ℕ → Option ℕ
  pub router : StaticRouter
  pub providers : HashMap String (ModelProvider F32 P)
  pub plan : Option RoutePlan
  pub policies : Principal → Result PolicyError Policy
  pub enforcer : Option (Enforcement Z)
  pub ttl : ℕ
  pub counter : Option (InferenceQuotaCounter C)
  pub pricing : Pricing Decimal
  pub catalog : Option (PricingCatalog Decimal)

module _ {F32 Decimal C P Z : Type 0} where
  abbrev pub memory_gateway :
      MemoryConfig F32 Decimal C P Z → GatewayService F32 Decimal (State Decimal) C P Z
  memory_gateway k = record {
    router = k.router;
    providers = k.providers;
    route_plan = k.plan;
    policy_resolver = k.policies;
    enforcer = k.enforcer;
    quota_service = record {
      store = memory_store k.calendar k.uuid_text;
      ttl = k.ttl;
      counter = k.counter;
    };
    metering_service = record {
      store = memory_store k.calendar k.uuid_text;
      pricing = k.pricing;
      catalog = k.catalog;
    };
  }

abbrev pub MemoryWorld : Type 0 → Type 0 → Type 0 → Type 0 → Type 0
MemoryWorld Decimal C P Z = World (State Decimal) C P Z

abbrev pub reservations :
    {Decimal C P Z : Type 0} → MemoryWorld Decimal C P Z → HashMap Uuid QuotaReservation
reservations w = w.quota_world.store.reservations

module _ {F32 Decimal C P Z : Type 0} (k : MemoryConfig F32 Decimal C P Z) where
  module _ (ticks : Ticks) (request_id : Uuid) (principal : Principal)
      (request : GatewayRequest F32) (route : ModelRoute) (w : MemoryWorld Decimal C P Z) where
    -- A reservation that succeeds is in the map under the id of its attempt.
    pub reserve_ok :
        (r : QuotaReservation)
        → (reserve (memory_gateway k) k.from_std ticks request_id principal request route w).0
          ≡ ok r
        → (r.reservation_id ≡ ticks.reservation_id)
          × (reservations
                (reserve (memory_gateway k) k.from_std ticks request_id principal request route w).1
              ≡ insert (reservations w) ticks.reservation_id r)
    unfolding reserve Quota.reserve Quota.reserve_counter Quota.settle Quota.release_if_held
        Quota.new_reservation memory_store reserve_quota
    reserve_ok r h = ground arith

    -- One that fails leaves the map as it is.
    pub reserve_err :
        (e : GatewayError)
        → (reserve (memory_gateway k) k.from_std ticks request_id principal request route w).0
          ≡ err e
        → reservations
            (reserve (memory_gateway k) k.from_std ticks request_id principal request route w).1
          ≡ reservations w
    unfolding reserve Quota.reserve Quota.reserve_counter Quota.settle Quota.release_if_held
        Quota.new_reservation memory_store reserve_quota
    reserve_err e h = ground arith

  -- Recording the outcome of a reservation succeeds and removes it.
  pub record_outcome-removes :
      (ticks : Ticks) (r : QuotaReservation) (u : TokenUsage) (status : UsageStatus)
      (w : MemoryWorld Decimal C P Z)
      → ((record_outcome (memory_gateway k) k.decimals ticks r u status w).0 ≡ ok tt)
        × (reservations (record_outcome (memory_gateway k) k.decimals ticks r u status w).1
            ≡ remove (reservations w) r.reservation_id)
  unfolding record_outcome Metering.finalize memory_store finalize_usage Quota.release_counter
      Quota.release_if_held
  record_outcome-removes ticks r u status w = ground arith

  pub record_or_release-removes :
      (ticks : Ticks) (r : QuotaReservation) (u : TokenUsage) (status : UsageStatus) (b : Bool)
      (w : MemoryWorld Decimal C P Z)
      → ((record_or_release (memory_gateway k) k.decimals ticks r u status b w).0 ≡ ok tt)
        × (reservations (record_or_release (memory_gateway k) k.decimals ticks r u status b w).1
            ≡ remove (reservations w) r.reservation_id)
  unfolding record_or_release Metering.release memory_store release_reservation
      Quota.release_counter Quota.release_if_held
  record_or_release-removes ticks r u status false w = record_outcome-removes ticks r u status w
  record_or_release-removes ticks r u status true w = ground arith

  pub inspect_response-reservations :
      (request_id : Uuid) (principal : Principal) (response : GatewayResponse)
      (w : MemoryWorld Decimal C P Z)
      → reservations (inspect_response (memory_gateway k) request_id principal response w).1
        ≡ reservations w
  unfolding inspect_response
  inspect_response-reservations request_id principal response w = ground arith

  pub answered-removes :
      (ticks : Ticks) (request_id : Uuid) (principal : Principal) (r : QuotaReservation)
      (response : GatewayResponse) (w : MemoryWorld Decimal C P Z)
      → reservations
          (answered k.decimals k.from_std
            (memory_gateway k)
            ticks
            request_id
            principal
            r
            response
            w).1
        ≡ remove (reservations w) r.reservation_id
  unfolding answered
  answered-removes ticks request_id principal r response w = ground (
    arith,
    inspect_response-reservations request_id principal response w,
    record_outcome-removes ticks r response.usage succeeded
        (inspect_response (memory_gateway k) request_id principal response w).1,
  )

  pub call-reservations :
      (p : ModelProvider F32 P) (request_id : Uuid) (request : GatewayRequest F32)
      (route : ModelRoute) (w : MemoryWorld Decimal C P Z)
      → reservations (call k.decimals k.from_std (memory_gateway k) p request_id request route w).1
        ≡ reservations w
  unfolding call
  call-reservations p request_id request route w = refl
