-- ===== src/Core/Tasks.antt =====
-- The reservations of streams over the in-memory store (crates/gateway-core/src/lib.rs): a started
-- task holds one, and gives it back when it is done.
use tuenel.Prelude.{ℕ, String, ◌≡◌, refl, none, Option, List, ok, nat_eq, Bool, true, string_eq}
use tuenel.Prelude.Maps.{get, insert}
use tuenel.Types.Identity.{Uuid, Principal}
use tuenel.Types.Inference.{GatewayRequest, GatewayInferenceRequest, ModelRoute, TokenUsage}
use tuenel.Types.Usage.{QuotaReservation}
use tuenel.Providers.{ProviderError}
use tuenel.Providers.Boundary.{ModelProvider, ProviderContext, GatewayStream, Timed}
use tuenel.Core.Service.{Inspect, Ticks, authorize, inspect_messages, routes}
use tuenel.Core.Execute.{failed_usage}
use tuenel.Core.Inputs.{Codec, canonical_request, inspect_inference, output_security}
use tuenel.Core.Fallback.{stream_operation, default_usage, attempts}
use tuenel.Core.Streams.{Sender, stream, stream_inference}
use tuenel.Core.Inspected.{run_task}
use tuenel.Core.Memory.{MemoryConfig, memory_gateway, MemoryWorld, reservations}
use tuenel.Core.Attempts.{Covered, Fresh}
use tuenel.Core.Settled.{bind-Settles, known-Settles, attempts-Settles}
use tuenel.Core.Accounts.{inspect_messages-reservations}
use tuenel.Core.Kept.{authorize-Keeps, inspect_inference-Keeps, output_security-Keeps}
use tuenel.Core.Ended.{HeldBy, run_task-returns}

module _ {F32 Decimal C P Z : Type 0} (k : MemoryConfig F32 Decimal C P Z) where
  module _ (index_text : ℕ → String) (ticks : ℕ → Ticks) (request_id : Uuid) (principal : Principal)
      (rs : List ModelRoute) (w : MemoryWorld Decimal C P Z) (cov : Covered k rs)
      (fresh : Fresh k ticks (reservations w)) where
    started :
        (method : ModelProvider F32 P → ProviderContext → Timed P GatewayStream)
        (failed : QuotaReservation → TokenUsage) (include_usage : Bool)
        (security : Option (Inspect Z)) (t : Ticks) (r : QuotaReservation) (a : GatewayStream)
        (v : MemoryWorld Decimal C P Z)
        → get (reservations w) r.reservation_id ≡ none
        → reservations v ≡ insert (reservations w) r.reservation_id r
        → HeldBy k
            (reservations w)
            ((stream_operation k.decimals k.from_std
                (memory_gateway k)
                index_text
                ticks
                request_id
                principal
                method
                failed
                include_usage
                security).on_answer
              t r a v).0
            (reservations
              ((stream_operation k.decimals k.from_std
                  (memory_gateway k)
                  index_text
                  ticks
                  request_id
                  principal
                  method
                  failed
                  include_usage
                  security).on_answer
                t r a v).1)
    unfolding stream_operation
    started method failed include_usage security t r a v free held = (free, held)

    attempts_started :
        (method : ModelProvider F32 P → ProviderContext → Timed P GatewayStream)
        (failed : QuotaReservation → TokenUsage) (include_usage : Bool)
        (security : Option (Inspect Z)) (legacy : GatewayRequest F32)
        (v : MemoryWorld Decimal C P Z)
        → reservations v ≡ reservations w
        → let p =
            attempts k.decimals k.from_std
              (memory_gateway k)
              (stream_operation k.decimals k.from_std
                (memory_gateway k)
                index_text
                ticks
                request_id
                principal
                method
                failed
                include_usage
                security)
              ticks
              0
              request_id
              principal
              legacy
              ProviderError.unavailable
              rs
              v in
          HeldBy k (reservations w) p.0 (reservations p.1)
    attempts_started method failed include_usage security legacy v same =
        attempts-Settles k
          (stream_operation k.decimals k.from_std (memory_gateway k) index_text ticks request_id
            principal method failed include_usage security)
          (reservations w) (HeldBy k (reservations w)) (λ e. refl)
          (started method failed include_usage security) ticks 0 request_id principal legacy
          ProviderError.unavailable rs v same fresh cov

    stream-HeldBy :
        (request : GatewayRequest F32)
        → routes (memory_gateway k) principal request.model ≡ ok rs
        → let p =
            stream k.decimals k.from_std
              (memory_gateway k)
              index_text
              ticks
              request_id
              principal
              request
              w in
          HeldBy k (reservations w) p.0 (reservations p.1)
    unfolding stream
    stream-HeldBy request found =
        let g = memory_gateway k in
        let m = reservations w in
        bind-Settles m (HeldBy k m) (λ e. refl)
          (authorize g principal request.model "chat_completion"
            request.generation.max_output_tokens)
          _
          (authorize-Keeps k principal request.model "chat_completion"
            request.generation.max_output_tokens)
          (λ _ v1 same1.
            bind-Settles m (HeldBy k m) (λ e. refl)
              (inspect_messages g index_text request_id principal request.messages) _
              (inspect_messages-reservations k index_text request_id principal request.messages)
              (λ messages v2 same2.
                bind-Settles m (HeldBy k m) (λ e. refl)
                  (output_security g index_text request_id principal) _
                  (output_security-Keeps k index_text request_id principal)
                  (λ security v3 same3.
                    known-Settles m (HeldBy k m) (λ e. refl) (routes g principal request.model) rs _
                      v3 found
                      (attempts_started
                        (λ p context. p.stream context (record request { messages = messages }))
                        failed_usage request.stream_include_usage security
                        (record request { messages = messages }) v3 same3))
                  v2 same2)
              v1 same1)
          w refl

    stream_inference-HeldBy :
        (codec : Codec) (request : GatewayInferenceRequest F32)
        → routes (memory_gateway k) principal request.requested_model ≡ ok rs
        → let p =
            stream_inference k.decimals k.from_std
              (memory_gateway k)
              index_text
              ticks
              request_id
              principal
              codec
              request
              w in
          HeldBy k (reservations w) p.0 (reservations p.1)
    unfolding stream_inference
    stream_inference-HeldBy codec request found =
        let g = memory_gateway k in
        let m = reservations w in
        let n = request.generation.max_output_tokens in
        bind-Settles m (HeldBy k m) (λ e. refl)
          (authorize g principal request.requested_model "response" n) _
          (authorize-Keeps k principal request.requested_model "response" n)
          (λ _ v1 same1.
            bind-Settles m (HeldBy k m) (λ e. refl)
              (inspect_inference g index_text request_id principal codec request) _
              (inspect_inference-Keeps k index_text request_id principal codec request)
              (λ inspected v2 same2.
                bind-Settles m (HeldBy k m) (λ e. refl)
                  (output_security g index_text request_id principal) _
                  (output_security-Keeps k index_text request_id principal)
                  (λ security v3 same3.
                    known-Settles m (HeldBy k m) (λ e. refl)
                      (routes g principal request.requested_model) rs _ v3 found
                      (attempts_started (λ p context. p.stream_infer context inspected)
                        default_usage true security (canonical_request inspected true) v3 same3))
                  v2 same2)
              v1 same1)
          w refl

    -- Over the in-memory store, if no reservation has the id of an attempt and every route for the
    -- model has its provider in the registry, then a streaming completion and the task that it
    -- starts leave, when the task is done, the map of reservations as it was, whatever the provider
    -- streams and however early the client goes away; and the same holds for a stream of a
    -- Responses request.
    pub run_task-reservations :
        (codec : Codec) (request : GatewayRequest F32) (inference : GatewayInferenceRequest F32)
        (s : Sender)
        → routes (memory_gateway k) principal request.model ≡ ok rs
        → routes (memory_gateway k) principal inference.requested_model ≡ ok rs
        → (reservations
              (run_task k.decimals (memory_gateway k) request_id principal s (
                stream k.decimals k.from_std
                  (memory_gateway k)
                  index_text
                  ticks
                  request_id
                  principal
                  request
                  w)).1
            ≡ reservations w)
          × (reservations
                (run_task k.decimals (memory_gateway k) request_id principal s (
                  stream_inference k.decimals k.from_std
                    (memory_gateway k)
                    index_text
                    ticks
                    request_id
                    principal
                    codec
                    inference
                    w)).1
              ≡ reservations w)
    run_task-reservations codec request inference s found found' = (
      run_task-returns k request_id principal s (reservations w) _ (stream-HeldBy request found),
      run_task-returns k request_id principal s (reservations w) _
          (stream_inference-HeldBy codec inference found'),
    )
