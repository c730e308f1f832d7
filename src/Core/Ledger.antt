-- ===== src/Core/Ledger.antt =====
-- The usage event of a completion over the in-memory store (crates/gateway-core/src/lib.rs).
use mathlib.Core.Path.{subst}
use tuenel.Prelude.{
  ◌≡◌, refl, true, false, none, some, [], ◌∷◌, ok, arith, nat_eq, nat_beq_iff, string_eq,
}
use tuenel.Prelude.Maps.{HashMap, get, insert}
use tuenel.Types.Identity.{Uuid, Principal}
use tuenel.Types.Inference.{GatewayRequest, GatewayResponse, TokenUsage, ModelRoute}
use tuenel.Types.Usage.{QuotaReservation, UsageStatus, succeeded}
use tuenel.Store.Memory.{memory_store, reserve_quota, finalize_usage, release_reservation}
use tuenel.Metering
use tuenel.Metering.{Pricing, PricingCatalog, MeteringService}
use tuenel.Quota
use tuenel.Quota.{InferenceQuotaCounter, QuotaService}
use tuenel.Core.Service.{Ticks, inspect_response, reserve, record_outcome, record_or_release}
use tuenel.Core.Execute.{answered}
use tuenel.Core.Memory.{MemoryConfig, memory_gateway, MemoryWorld, record_outcome-removes}
use tuenel.Types.Usage.{UsageEvent}
use tuenel.Core.Service.{usage_event}
use tuenel.Prelude.Maps.{contains_key, get-insert}

module _ {F32 Decimal C P Z : Type 0} (k : MemoryConfig F32 Decimal C P Z) where
  abbrev pub ledger : MemoryWorld Decimal C P Z → HashMap Uuid (UsageEvent Decimal)
  ledger w = w.quota_world.store.usage

  -- The ledger has an event of this usage and this status for the request.
  abbrev pub Recorded : Uuid → TokenUsage → UsageStatus → HashMap Uuid (UsageEvent Decimal) → Type 0
  Recorded request_id u status m =
      (e : UsageEvent Decimal) × (get m request_id ≡ some e) × (e.status ≡ status) × (e.usage ≡ u)

  -- The ledger has a successful event of this usage for the request.
  abbrev pub Billed : Uuid → TokenUsage → HashMap Uuid (UsageEvent Decimal) → Type 0
  Billed request_id u m = Recorded request_id u succeeded m

  pub reserve-ledger :
      (ticks : Ticks) (request_id : Uuid) (principal : Principal) (request : GatewayRequest F32)
      (route : ModelRoute) (w : MemoryWorld Decimal C P Z)
      → ledger (reserve (memory_gateway k) k.from_std ticks request_id principal request route w).1
        ≡ ledger w
  unfolding reserve Quota.reserve Quota.reserve_counter Quota.settle Quota.release_if_held
      memory_store reserve_quota
  reserve-ledger ticks request_id principal request route w = ground arith

  pub reserve-request_id :
      (ticks : Ticks) (request_id : Uuid) (principal : Principal) (request : GatewayRequest F32)
      (route : ModelRoute) (w : MemoryWorld Decimal C P Z) (r : QuotaReservation)
      → (reserve (memory_gateway k) k.from_std ticks request_id principal request route w).0 ≡ ok r
      → r.request_id ≡ request_id
  unfolding reserve Quota.reserve Quota.reserve_counter Quota.settle Quota.new_reservation
      memory_store reserve_quota
  reserve-request_id ticks request_id principal request route w r h = ground arith

  insert-get :
      (m : HashMap Uuid (UsageEvent Decimal)) (id : Uuid) (e : UsageEvent Decimal)
      → get (insert m id e) id ≡ some e
  insert-get m id e = ground (arith, get-insert m id e id, nat_beq_iff id id)

  no_key :
      (m : HashMap Uuid (UsageEvent Decimal)) (id : Uuid)
      → get m id ≡ none
      → contains_key m id ≡ false
  unfolding contains_key get
  no_key [] id h = refl
  no_key ((j, e) ∷ m) id h = ground (arith, no_key m id)

  pub record_outcome-Recorded :
      (ticks : Ticks) (r : QuotaReservation) (u : TokenUsage) (status : UsageStatus)
      (w : MemoryWorld Decimal C P Z)
      → get (ledger w) r.request_id ≡ none
      → Recorded r.request_id u status
          (ledger (record_outcome (memory_gateway k) k.decimals ticks r u status w).1)
  unfolding record_outcome Metering.finalize memory_store finalize_usage Quota.release_counter
      Quota.release_if_held
  record_outcome-Recorded ticks r u status w h =
      let e = usage_event (memory_gateway k) k.decimals ticks r u status in
      let same : e.request_id ≡ r.request_id = unfold usage_event in refl in
      (
        e,
        ground
            (arith, same, no_key (ledger w) r.request_id h, insert-get (ledger w) r.request_id e),
        unfold usage_event in refl,
        unfold usage_event in refl,
      )

  inspect_response-ledger :
      (request_id : Uuid) (principal : Principal) (response : GatewayResponse)
      (w : MemoryWorld Decimal C P Z)
      → ledger (inspect_response (memory_gateway k) request_id principal response w).1 ≡ ledger w
  unfolding inspect_response
  inspect_response-ledger request_id principal response w = ground arith

  inspect_response-usage :
      (request_id : Uuid) (principal : Principal) (response inspected : GatewayResponse)
      (w : MemoryWorld Decimal C P Z)
      → (inspect_response (memory_gateway k) request_id principal response w).0 ≡ ok inspected
      → inspected.usage ≡ response.usage
  unfolding inspect_response
  inspect_response-usage request_id principal response inspected w h = ground arith

  pub released-ledger :
      (ticks : Ticks) (r : QuotaReservation) (u : TokenUsage) (status : UsageStatus)
      (w : MemoryWorld Decimal C P Z)
      → ledger (record_or_release (memory_gateway k) k.decimals ticks r u status true w).1
        ≡ ledger w
  unfolding record_or_release Metering.release memory_store release_reservation
      Quota.release_counter Quota.release_if_held
  released-ledger ticks r u status w = ground arith

  -- A provider's answer is billed with the usage that it reports, also where the inspection of the
  -- output then fails.
  pub answered-Billed :
      (ticks : Ticks) (request_id : Uuid) (principal : Principal) (r : QuotaReservation)
      (response : GatewayResponse) (w : MemoryWorld Decimal C P Z)
      → get (ledger w) r.request_id ≡ none
      → Billed r.request_id response.usage (
          ledger
            (answered k.decimals k.from_std
              (memory_gateway k)
              ticks
              request_id
              principal
              r
              response
              w).1)
  unfolding answered
  answered-Billed ticks request_id principal r response w h =
      let v = (inspect_response (memory_gateway k) request_id principal response w).1 in
      let billed =
        record_outcome-Recorded ticks r response.usage succeeded v
          (ground (arith, h, inspect_response-ledger request_id principal response w)) in
      subst (λ m. Billed r.request_id response.usage m)
        (ground (arith, record_outcome-removes k ticks r response.usage succeeded v)) billed

  pub answered-usage :
      (ticks : Ticks) (request_id : Uuid) (principal : Principal) (r : QuotaReservation)
      (response reply : GatewayResponse) (w : MemoryWorld Decimal C P Z)
      → (answered k.decimals k.from_std
          (memory_gateway k)
          ticks
          request_id
          principal
          r
          response
          w).0
        ≡ ok reply
      → reply.usage ≡ response.usage
  unfolding answered
  answered-usage ticks request_id principal r response reply w h = ground (
    arith,
    record_outcome-removes k ticks r response.usage succeeded
        (inspect_response (memory_gateway k) request_id principal response w).1,
    inspect_response-usage request_id principal response reply w,
  )
