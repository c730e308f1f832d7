-- ===== src/Core/Fallback.antt =====
-- crates/gateway-core/src/lib.rs: the loop over routes of `execute_inference`, `embed`, `stream` and
-- `stream_inference`, which differ in the call of the provider, the usage that a failed attempt is
-- charged, and what is done with an answer. Attempt `i` has the readings `ticks i`.
use tuenel.Prelude.{
  ℕ, suc, String, Bool, false, not, ◌&&◌, Option, List, [], ◌∷◌, Result, ok, err, Exec, ◌>>=◌, ◌>>◌,
  lift, is_empty, if◌then◌else◌,
}
use tuenel.Types.Identity.{Uuid, Principal}
use tuenel.Types.Inference.{
  GatewayRequest, GatewayInferenceRequest, GatewayEmbeddingRequest, GatewayEmbeddingResponse,
  GatewayResponse, TokenUsage, ModelRoute,
}
use tuenel.Types.Decimal.{DecimalOps}
use tuenel.Types.Usage.{QuotaReservation, succeeded, provider_failed}
use tuenel.Providers.{ProviderError}
use tuenel.Providers.Boundary.{ProviderContext, ModelProvider, GatewayStream, Timed}
use tuenel.Routing.{retryable}
use tuenel.Core.Service.{
  GatewayError, provider, GatewayService, World, Ticks, Inspect, authorize, routes, provider_for,
  reserve, record_outcome, record_or_release,
}
use tuenel.Core.Execute.{timed, answered}
use tuenel.Core.Inputs.{
  Codec, canonical_request, embedding_request, inspect_inference, inspect_embeddings,
}

-- `TokenUsage { prompt_tokens, ..Default::default() }`
unfoldable pub default_usage : QuotaReservation → TokenUsage
default_usage r = record {
  prompt_tokens = r.prompt_tokens;
  completion_tokens = 0;
  estimated = false;
}

-- What the task of a stream is spawned with: the readings are those of its attempt.
pub record StreamTask (Z : Type 0) : Type 0 where
  pub upstream : GatewayStream
  pub reservation : QuotaReservation
  pub include_usage : Bool
  pub task_ticks : Ticks
  pub security : Option (Inspect Z)

-- How one of the operations differs from the others.
pub record Operation (F32 P W A B : Type 0) : Type 0 where
  pub method : ModelProvider F32 P → ProviderContext → Timed P A
  pub failed_usage_of : QuotaReservation → TokenUsage
  pub on_answer : Ticks → QuotaReservation → A → Exec W GatewayError B

module _ {F32 Decimal S C P Z A B : Type 0} (d : DecimalOps Decimal) (from_std : ℕ → Option ℕ)
    (g : GatewayService F32 Decimal S C P Z) (o : Operation F32 P (World S C P Z) A B) where
  unfoldable pub call_provider :
      ModelProvider F32 P
      → Uuid
      → ModelRoute
      → World S C P Z
      → Result ProviderError A × World S C P Z
  call_provider p request_id route w =
      let (r, s) =
        o.method p (record { request_id = request_id; upstream_model = route.upstream_model })
          w.provider_state in
      (timed r, record w { provider_state = s })

  -- The two arms on the provider's result, with `next` the attempt at the next route.
  unfoldable pub settle_attempt :
      Ticks
      → QuotaReservation
      → List ModelRoute
      → (ProviderError → Exec (World S C P Z) GatewayError B)
      → Result ProviderError A
      → Exec (World S C P Z) GatewayError B
  settle_attempt ticks reservation rest next (ok answer) = o.on_answer ticks reservation answer
  settle_attempt ticks reservation rest next (err error) =
      let can_retry = not (is_empty rest) && retryable error in
      record_or_release g d ticks reservation (o.failed_usage_of reservation) provider_failed
        can_retry
      >>= λ _. if can_retry then next error else lift (err (provider error))

  -- The loop over the routes that are left.
  unfoldable pub attempts :
      (ℕ → Ticks)
      → ℕ
      → Uuid
      → Principal
      → GatewayRequest F32
      → ProviderError
      → List ModelRoute
      → Exec (World S C P Z) GatewayError B
  attempts ticks i request_id principal legacy last_error [] = lift (err (provider last_error))
  attempts ticks i request_id principal legacy last_error (route ∷ rest) = do
    reservation ← reserve g from_std (ticks i) request_id principal legacy route
    p ← lift (provider_for g route)
    λ w.
        let (result, w') = call_provider p request_id route w in
        settle_attempt (ticks i) reservation rest
          (λ error. attempts ticks (suc i) request_id principal legacy error rest) result w'

module _ {F32 Decimal S C P Z : Type 0} (d : DecimalOps Decimal) (from_std : ℕ → Option ℕ)
    (g : GatewayService F32 Decimal S C P Z) (index_text : ℕ → String) (ticks : ℕ → Ticks)
    (request_id : Uuid) (principal : Principal) where
  unfoldable pub infer_operation :
      GatewayInferenceRequest F32 → Operation F32 P (World S C P Z) GatewayResponse GatewayResponse
  infer_operation request = record {
    method = λ p context. p.infer context request;
    failed_usage_of = default_usage;
    on_answer = λ t r response. answered d from_std g t request_id principal r response;
  }

  -- GatewayService::execute_inference
  unfoldable pub execute_inference :
      Codec → GatewayInferenceRequest F32 → Exec (World S C P Z) GatewayError GatewayResponse
  execute_inference codec request = do
    authorize g principal request.requested_model "response" request.generation.max_output_tokens
    inspected ← inspect_inference g index_text request_id principal codec request
    rs ← lift (routes g principal request.requested_model)
    attempts d from_std g (infer_operation inspected) ticks 0 request_id principal
        (canonical_request inspected false) ProviderError.unavailable rs

  unfoldable pub embed_operation :
      GatewayEmbeddingRequest
      → Operation F32 P
          (World S C P Z)
          (GatewayEmbeddingResponse F32)
          (GatewayEmbeddingResponse F32)
  embed_operation request = record {
    method = λ p context. p.embed context request;
    failed_usage_of = default_usage;
    on_answer = λ t r response.
        record_outcome g d t r
          (record {
            prompt_tokens = response.usage.input_tokens;
            completion_tokens = 0;
            estimated = false;
          })
          succeeded
        >>= λ _. lift (ok response);
  }

  -- GatewayService::embed
  unfoldable pub embed :
      GatewayEmbeddingRequest → Exec (World S C P Z) GatewayError (GatewayEmbeddingResponse F32)
  embed request = do
    authorize g principal request.requested_model "embedding" 0
    inspected ← inspect_embeddings g index_text request_id principal request
    rs ← lift (routes g principal request.requested_model)
    attempts d from_std g (embed_operation inspected) ticks 0 request_id principal
        (embedding_request inspected) ProviderError.unavailable rs

  -- An answer starts the task: nothing else has changed when the call returns.
  unfoldable pub stream_operation :
      (ModelProvider F32 P → ProviderContext → Timed P GatewayStream)
      → (QuotaReservation → TokenUsage)
      → Bool
      → Option (Inspect Z)
      → Operation F32 P (World S C P Z) GatewayStream (StreamTask Z)
  stream_operation method failed include_usage security = record {
    method = method;
    failed_usage_of = failed;
    on_answer = λ t r upstream. lift (
        ok (record {
          upstream = upstream;
          reservation = r;
          include_usage = include_usage;
          task_ticks = t;
          security = security;
        }));
  }
