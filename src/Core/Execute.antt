-- ===== src/Core/Execute.antt =====
-- crates/gateway-core/src/lib.rs, `GatewayService::execute`: the non-streaming completion. The
-- loop is over the routes that are left; attempt `i` has the readings `ticks i`.
use tuenel.Prelude.{
  ℕ, suc, String, true, not, ◌&&◌, Option, none, some, List, [], ◌∷◌, Result, ok, err, Exec, ◌>>=◌,
  ◌>>◌, lift, is_empty, if◌then◌else◌,
}
use tuenel.Types.Identity.{Uuid, Principal}
use tuenel.Types.Inference.{GatewayRequest, GatewayResponse, TokenUsage, ModelRoute}
use tuenel.Types.Decimal.{DecimalOps}
use tuenel.Types.Usage.{QuotaReservation, succeeded, provider_failed}
use tuenel.Providers.{ProviderError}
use tuenel.Routing.{retryable}
use tuenel.Providers.Boundary.{ModelProvider}
use tuenel.Core.Service.{
  GatewayError, provider, GatewayService, World, Ticks, authorize, routes, provider_for,
  inspect_messages, inspect_response, reserve, record_outcome, record_or_release,
}

-- `.map_err(|_| ProviderError::Timeout).and_then(|result| result)`
unfoldable pub timed : {A : Type 0} → Option (Result ProviderError A) → Result ProviderError A
timed none = err ProviderError.timeout
timed (some r) = r

-- The usage that a failed attempt is charged: the prompt, estimated.
unfoldable pub failed_usage : QuotaReservation → TokenUsage
failed_usage r = record { prompt_tokens = r.prompt_tokens; completion_tokens = 0; estimated = true }

module _ {F32 Decimal S C P Z : Type 0} (d : DecimalOps Decimal) (from_std : ℕ → Option ℕ)
    (g : GatewayService F32 Decimal S C P Z) where
  -- The call of the provider.
  unfoldable pub call :
      ModelProvider F32 P
      → Uuid
      → GatewayRequest F32
      → ModelRoute
      → World S C P Z
      → Result ProviderError GatewayResponse × World S C P Z
  call p request_id request route w =
      let (r, s) =
        p.execute (record { request_id = request_id; upstream_model = route.upstream_model })
          request w.provider_state in
      (timed r, record w { provider_state = s })

  -- The provider answered: the output is inspected, the usage recorded in any case, and a failed
  -- inspection reported after that.
  unfoldable pub answered :
      Ticks
      → Uuid
      → Principal
      → QuotaReservation
      → GatewayResponse
      → Exec (World S C P Z) GatewayError GatewayResponse
  answered ticks request_id principal reservation response w =
      let (inspection, w') = inspect_response g request_id principal response w in
      (record_outcome g d ticks reservation response.usage succeeded >>= λ _. lift inspection) w'

  -- The two arms on the provider's result, with `next` the attempt at the next route after an
  -- error; there is a next route if `rest` is not empty.
  unfoldable pub outcome :
      Ticks
      → Uuid
      → Principal
      → QuotaReservation
      → List ModelRoute
      → (ProviderError → Exec (World S C P Z) GatewayError GatewayResponse)
      → Result ProviderError GatewayResponse
      → Exec (World S C P Z) GatewayError GatewayResponse
  outcome ticks request_id principal reservation rest next (ok response) =
      answered ticks request_id principal reservation response
  outcome ticks request_id principal reservation rest next (err error) =
      let can_retry = not (is_empty rest) && retryable error in
      record_or_release g d ticks reservation (failed_usage reservation) provider_failed can_retry
      >>= λ _. if can_retry then next error else lift (err (provider error))

  -- The loop over the routes that are left, with the readings of the attempts from `i` on.
  unfoldable pub attempt :
      (ℕ → Ticks)
      → ℕ
      → Uuid
      → Principal
      → GatewayRequest F32
      → ProviderError
      → List ModelRoute
      → Exec (World S C P Z) GatewayError GatewayResponse
  attempt ticks i request_id principal request last_error [] = lift (err (provider last_error))
  attempt ticks i request_id principal request last_error (route ∷ rest) = do
    reservation ← reserve g from_std (ticks i) request_id principal request route
    p ← lift (provider_for g route)
    λ w.
        let (result, w') = call p request_id request route w in
        outcome (ticks i) request_id principal reservation rest
          (λ error. attempt ticks (suc i) request_id principal request error rest) result w'

  -- GatewayService::execute
  unfoldable pub execute :
      (ℕ → String)
      → (ℕ → Ticks)
      → Uuid
      → Principal
      → GatewayRequest F32
      → Exec (World S C P Z) GatewayError GatewayResponse
  execute index_text ticks request_id principal request = do
    authorize g principal request.model "chat_completion" request.generation.max_output_tokens
    messages ← inspect_messages g index_text request_id principal request.messages
    rs ← lift (routes g principal request.model)
    attempt ticks 0 request_id principal (record request { messages = messages })
        ProviderError.unavailable rs
