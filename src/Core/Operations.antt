-- ===== src/Core/Operations.antt =====
-- The reservations of Responses requests, and embeddings over the in-memory store
-- (crates/gateway-core/src/lib.rs): none is left behind.
use tuenel.Prelude.{
  ℕ, String, ap, ◌∙◌, ◌≡◌, refl, none, List, Result, ok, arith, nat_eq, false, string_eq,
}
use tuenel.Prelude.Maps.{HashMap, get, insert, remove, remove-insert}
use tuenel.Types.Identity.{Uuid, Principal}
use tuenel.Types.Inference.{
  GatewayInferenceRequest, GatewayEmbeddingRequest, GatewayEmbeddingResponse, GatewayResponse,
  ModelRoute,
}
use tuenel.Types.Usage.{QuotaReservation, succeeded}
use tuenel.Providers.{ProviderError}
use tuenel.Core.Service.{GatewayError, Ticks, authorize, routes}
use tuenel.Core.Inputs.{
  Codec, canonical_request, inspect_inference, inspect_embeddings, embedding_request,
}
use tuenel.Core.Fallback.{infer_operation, execute_inference, embed_operation, embed}
use tuenel.Core.Memory.{
  MemoryConfig, memory_gateway, MemoryWorld, reservations, record_outcome-removes, answered-removes,
}
use tuenel.Core.Attempts.{Covered, Fresh}
use tuenel.Core.Settled.{bind-Settles, known-Settles, attempts-Settles}
use tuenel.Core.Kept.{authorize-Keeps, inspect_embeddings-Keeps, inspect_inference-Keeps}

module _ {F32 Decimal C P Z : Type 0} (k : MemoryConfig F32 Decimal C P Z) where
  module _ (index_text : ℕ → String) (ticks : ℕ → Ticks) (request_id : Uuid) (principal : Principal)
      (rs : List ModelRoute) (w : MemoryWorld Decimal C P Z) (cov : Covered k rs)
      (fresh : Fresh k ticks (reservations w)) where
    -- The reservations are those from before.
    abbrev Unchanged : {B : Type 0} → Result GatewayError B → HashMap Uuid QuotaReservation → Type 0
    Unchanged result m = m ≡ reservations w

    answered_back :
        (request : GatewayInferenceRequest F32) (t : Ticks) (r : QuotaReservation)
        (a : GatewayResponse) (v : MemoryWorld Decimal C P Z)
        → get (reservations w) r.reservation_id ≡ none
        → reservations v ≡ insert (reservations w) r.reservation_id r
        → reservations
            ((infer_operation k.decimals k.from_std
                (memory_gateway k)
                index_text
                ticks
                request_id
                principal
                request).on_answer
              t r a v).1
          ≡ reservations w
    unfolding infer_operation
    answered_back request t r a v free held =
        answered-removes k t request_id principal r a v
        ∙ ap (λ m. remove m r.reservation_id) held
        ∙ remove-insert (reservations w) r.reservation_id r free

    -- Over the in-memory store, if no reservation has the id of an attempt and every route for the
    -- model has its provider in the registry, a Responses request leaves the map of reservations
    -- as it found it, whatever its result.
    pub execute_inference-reservations :
        (codec : Codec) (request : GatewayInferenceRequest F32)
        → routes (memory_gateway k) principal request.requested_model ≡ ok rs
        → reservations
            (execute_inference k.decimals k.from_std
              (memory_gateway k)
              index_text
              ticks
              request_id
              principal
              codec
              request
              w).1
          ≡ reservations w
    unfolding execute_inference infer_operation
    execute_inference-reservations codec request found =
        let g = memory_gateway k in
        bind-Settles (reservations w) (Unchanged {B = GatewayResponse}) (λ e. refl)
          (authorize g principal request.requested_model "response"
            request.generation.max_output_tokens)
          _
          (authorize-Keeps k principal request.requested_model "response"
            request.generation.max_output_tokens)
          (λ _ v1 same1.
            bind-Settles (reservations w) (Unchanged {B = GatewayResponse}) (λ e. refl)
              (inspect_inference g index_text request_id principal codec request) _
              (inspect_inference-Keeps k index_text request_id principal codec request)
              (λ inspected v2 same2.
                known-Settles (reservations w) (Unchanged {B = GatewayResponse}) (λ e. refl)
                  (routes g principal request.requested_model) rs _ v2 found
                  (attempts-Settles k
                    (infer_operation k.decimals k.from_std g index_text ticks request_id principal
                      inspected)
                    (reservations w) (Unchanged {B = GatewayResponse}) (λ e. refl)
                    (answered_back inspected) ticks 0 request_id principal
                    (canonical_request inspected false) ProviderError.unavailable rs v2 same2 fresh
                    cov))
              v1 same1)
          w refl

    embedded_back :
        (request : GatewayEmbeddingRequest) (t : Ticks) (r : QuotaReservation)
        (a : GatewayEmbeddingResponse F32) (v : MemoryWorld Decimal C P Z)
        → get (reservations w) r.reservation_id ≡ none
        → reservations v ≡ insert (reservations w) r.reservation_id r
        → reservations
            ((embed_operation k.decimals k.from_std
                (memory_gateway k)
                index_text
                ticks
                request_id
                principal
                request).on_answer
              t r a v).1
          ≡ reservations w
    unfolding embed_operation
    embedded_back request t r a v free held = ground (
      arith,
      record_outcome-removes k t r
          (record {
            prompt_tokens = a.usage.input_tokens;
            completion_tokens = 0;
            estimated = false;
          })
          succeeded v,
      ap (λ m. remove m r.reservation_id) held,
      remove-insert (reservations w) r.reservation_id r free,
    )

    -- Over the in-memory store, if no reservation has the id of an attempt and every route for the
    -- model has its provider in the registry, an embeddings request leaves the map of reservations
    -- as it found it, whatever its result.
    pub embed-reservations :
        (request : GatewayEmbeddingRequest)
        → routes (memory_gateway k) principal request.requested_model ≡ ok rs
        → reservations
            (embed k.decimals k.from_std
              (memory_gateway k)
              index_text
              ticks
              request_id
              principal
              request
              w).1
          ≡ reservations w
    unfolding embed
    embed-reservations request found =
        let g = memory_gateway k in
        bind-Settles (reservations w) (Unchanged {B = GatewayEmbeddingResponse F32}) (λ e. refl)
          (authorize g principal request.requested_model "embedding" 0) _
          (authorize-Keeps k principal request.requested_model "embedding" 0)
          (λ _ v1 same1.
            bind-Settles (reservations w) (Unchanged {B = GatewayEmbeddingResponse F32}) (λ e. refl)
              (inspect_embeddings g index_text request_id principal request) _
              (inspect_embeddings-Keeps k index_text request_id principal request)
              (λ inspected v2 same2.
                known-Settles (reservations w) (Unchanged {B = GatewayEmbeddingResponse F32})
                  (λ e. refl) (routes g principal request.requested_model) rs _ v2 found
                  (attempts-Settles k
                    (embed_operation k.decimals k.from_std g index_text ticks request_id principal
                      inspected)
                    (reservations w) (Unchanged {B = GatewayEmbeddingResponse F32}) (λ e. refl)
                    (embedded_back inspected) ticks 0 request_id principal
                    (embedding_request inspected) ProviderError.unavailable rs v2 same2 fresh cov))
              v1 same1)
          w refl
