-- ===== src/Core/Streams.antt =====
-- crates/gateway-core/src/lib.rs: the start of a stream, and the spawned task that reads the
-- provider's stream, sends to the client and records the usage. The client is a receiver that
-- takes `left` more messages and then goes away.
use Prim.Native.String.{len}
use mathlib.Core.List.{◌++◌ as append}
use tuenel.Prelude.{
  ℕ, zero, suc, String, Bool, true, false, Option, none, some, List, [], ◌∷◌, Result, ok, err, Exec,
  ◌>>=◌, ◌>>◌, lift, is_ok, if◌then◌else◌,
}
use tuenel.Prelude.Words.{saturating_add}
use tuenel.Types.Identity.{Uuid, Principal}
use tuenel.Types.Inference.{
  GatewayStreamEvent, started, delta, finished, usage, GatewayRequest, GatewayInferenceRequest,
  TokenUsage,
}
use tuenel.Types.Decimal.{DecimalOps}
use tuenel.Types.Usage.{QuotaReservation, UsageStatus, succeeded, provider_failed, interrupted}
use tuenel.Providers.{ProviderError}
use tuenel.Providers.Boundary.{GatewayStream}
use tuenel.Core.Service.{
  GatewayError, provider, metering, GatewayService, World, Ticks, authorize, routes,
  inspect_messages, record_outcome,
}
use tuenel.Core.Execute.{failed_usage}
use tuenel.Core.Inputs.{Codec, canonical_request, inspect_inference, output_security}
use tuenel.Core.Fallback.{StreamTask, default_usage, stream_operation, attempts}

module _ {F32 Decimal S C P Z : Type 0} (d : DecimalOps Decimal) (from_std : ℕ → Option ℕ)
    (g : GatewayService F32 Decimal S C P Z) (index_text : ℕ → String) (ticks : ℕ → Ticks)
    (request_id : Uuid) (principal : Principal) where
  -- GatewayService::stream, up to the spawned task
  unfoldable pub stream : GatewayRequest F32 → Exec (World S C P Z) GatewayError (StreamTask Z)
  stream request = do
    authorize g principal request.model "chat_completion" request.generation.max_output_tokens
    messages ← inspect_messages g index_text request_id principal request.messages
    security ← output_security g index_text request_id principal
    rs ← lift (routes g principal request.model)
    attempts d from_std g
        (stream_operation d from_std g index_text ticks request_id principal
          (λ p context. p.stream context (record request { messages = messages })) failed_usage
          request.stream_include_usage security)
        ticks 0 request_id principal (record request { messages = messages })
        ProviderError.unavailable rs

  -- GatewayService::stream_inference, up to the spawned task
  unfoldable pub stream_inference :
      Codec → GatewayInferenceRequest F32 → Exec (World S C P Z) GatewayError (StreamTask Z)
  stream_inference codec request = do
    authorize g principal request.requested_model "response" request.generation.max_output_tokens
    inspected ← inspect_inference g index_text request_id principal codec request
    security ← output_security g index_text request_id principal
    rs ← lift (routes g principal request.requested_model)
    attempts d from_std g
        (stream_operation d from_std g index_text ticks request_id principal
          (λ p context. p.stream_infer context inspected) default_usage true security)
        ticks 0 request_id principal (canonical_request inspected true) ProviderError.unavailable rs

-- The sender's end of the channel: what was sent, and how many messages the receiver still takes.
pub record Sender : Type 0 where
  pub sent : List (Result GatewayError GatewayStreamEvent)
  pub left : ℕ

-- Sender::send: `false` where the receiver is gone.
unfoldable pub send : Result GatewayError GatewayStreamEvent → Sender → Bool × Sender
send item s = elim s.left [
  | zero ↦ (false, s)
  | suc n ↦ (true, record { sent = append s.sent (item ∷ []); left = n })
]

-- The variables of the loop.
pub record Tally : Type 0 where
  pub output_bytes : ℕ
  pub reported : Option TokenUsage
  pub status : UsageStatus

abbrev pub new_tally : Tally
new_tally = record { output_bytes = 0; reported = none; status = succeeded }

abbrev pub count : GatewayStreamEvent → Tally → Tally
count (delta content) t = record t { output_bytes = saturating_add t.output_bytes (len content) }
count (usage u) t = record t { reported = some u }
count (started id) t = t
count (finished reason) t = t

abbrev pub should_send : Bool → GatewayStreamEvent → Bool
should_send include_usage (usage u) = include_usage
should_send include_usage (delta content) = true
should_send include_usage (started id) = true
should_send include_usage (finished reason) = true

-- The loop of `consume_stream`.
unfoldable pub pump : Bool → GatewayStream → Tally → Sender → Tally × Sender
pump include_usage [] t s = (t, s)
pump include_usage (err error ∷ items) t s =
    (record t { status = provider_failed }, (send (err (provider error)) s).1)
pump include_usage (ok event ∷ items) t s = elim (should_send include_usage event) [
  | false ↦ pump include_usage items (count event t) s
  | true ↦
      let (taken, s') = send (ok event) s in
      elim taken [
        | true ↦ pump include_usage items (count event t) s'
        | false ↦ (record (count event t) { status = interrupted }, s')
      ]
]

-- `usage.unwrap_or(...)`
unfoldable pub usage_or_estimate : QuotaReservation → Option TokenUsage → ℕ → TokenUsage
usage_or_estimate r (some u) bytes = u
usage_or_estimate r none bytes = record {
  prompt_tokens = r.prompt_tokens;
  completion_tokens = bytes;
  estimated = true;
}

module _ {F32 Decimal S C P Z : Type 0} (d : DecimalOps Decimal)
    (g : GatewayService F32 Decimal S C P Z) where
  -- The end of a task: the usage is recorded, the counter released, and a failure sent.
  unfoldable pub finish_stream :
      Ticks
      → QuotaReservation
      → TokenUsage
      → UsageStatus
      → Sender
      → World S C P Z
      → Sender × World S C P Z
  finish_stream ticks r u status s w =
      let (result, w') = record_outcome g d ticks r u status w in
      (if is_ok result then s else (send (err metering) s).1, w')

  -- `consume_stream` without inspection
  unfoldable pub consume_plain : StreamTask Z → Sender → World S C P Z → Sender × World S C P Z
  consume_plain task s w =
      let (t, s') = pump task.include_usage task.upstream new_tally s in
      finish_stream task.task_ticks task.reservation
        (usage_or_estimate task.reservation t.reported t.output_bytes) t.status s' w
