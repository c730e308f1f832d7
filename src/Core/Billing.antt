-- ===== src/Core/Billing.antt =====
-- A completion that succeeds is billed, over the in-memory store (crates/gateway-core/src/lib.rs).
use mathlib.Core.Path.{subst}
use Prim.Native.String.{◌++◌}
use tuenel.Types.Security.{prompt_text}
use tuenel.Prelude.{
  ℕ, suc, String, sym, ◌≡◌, refl, true, false, not, ◌&&◌, none, List, [], ◌∷◌, Result, ok, err,
  Exec, arith, nat_eq, Result-cases, Bool-cases, Option-cases, inl, inr, string_eq, is_empty,
}
use tuenel.Prelude.Maps.{get}
use tuenel.Types.Identity.{Uuid, Principal}
use tuenel.Types.Inference.{GatewayMessage, GatewayRequest, GatewayResponse, TokenUsage, ModelRoute}
use tuenel.Types.Usage.{QuotaReservation, provider_failed}
use tuenel.Providers.{ProviderError}
use tuenel.Routing.{retryable}
use tuenel.Core.Service.{
  GatewayError, Inspect, Ticks, authorize, routes, provider_for, inspect_from, inspect_messages,
  reserve, record_or_release,
}
use tuenel.Core.Execute.{call, answered, outcome, attempt, execute, failed_usage}
use tuenel.Core.Memory.{MemoryConfig, memory_gateway, MemoryWorld, record_or_release-removes}
use tuenel.Core.Service.{context_for}
use tuenel.Core.Ledger.{
  ledger, Billed, reserve-ledger, reserve-request_id, released-ledger, answered-Billed,
  answered-usage,
}

module _ {F32 Decimal C P Z : Type 0} (k : MemoryConfig F32 Decimal C P Z) where
  module _ (ticks : Ticks) (request_id : Uuid) (principal : Principal) (r : QuotaReservation)
      (rest : List ModelRoute)
      (next : ProviderError → Exec (MemoryWorld Decimal C P Z) GatewayError GatewayResponse)
      (w : MemoryWorld Decimal C P Z) (reply : GatewayResponse)
      (fresh : get (ledger k w) r.request_id ≡ none)
      (later : (error : ProviderError) (v : MemoryWorld Decimal C P Z)
        → ledger k v ≡ ledger k w
        → (next error v).0 ≡ ok reply
        → Billed k r.request_id reply.usage (ledger k (next error v).1)) where
    outcome-Billed :
        (result : Result ProviderError GatewayResponse)
        → (outcome k.decimals k.from_std
            (memory_gateway k)
            ticks
            request_id
            principal
            r
            rest
            next
            result
            w).0
          ≡ ok reply
        → Billed k r.request_id reply.usage (
            ledger k
              (outcome k.decimals k.from_std
                (memory_gateway k)
                ticks
                request_id
                principal
                r
                rest
                next
                result
                w).1)
    unfolding outcome
    outcome-Billed (ok response) h =
        subst
          (λ (u : TokenUsage). Billed k r.request_id u (
            ledger k
              (answered k.decimals k.from_std (memory_gateway k) ticks request_id principal r
                response w).1))
          (sym (answered-usage k ticks request_id principal r response reply w h))
          (answered-Billed k ticks request_id principal r response w fresh)
    outcome-Billed (err error) h =
        let b = not (is_empty rest) && retryable error in
        let gone = record_or_release-removes k ticks r (failed_usage r) provider_failed in
        elim (Bool-cases b) [
          | inl again ↦
              let v =
                (record_or_release (memory_gateway k) k.decimals ticks r (failed_usage r)
                  provider_failed true w).1 in
              let same = released-ledger k ticks r (failed_usage r) provider_failed w in
              let through : (next error v).0 ≡ ok reply = ground (arith, again, h, gone true w) in
              subst (Billed k r.request_id reply.usage) (ground (arith, again, gone true w))
                (later error v same through)
          | inr last ↦ absurd (ground (arith, last, h, gone false w))
        ]

  attempt-Billed :
      (ticks : ℕ → Ticks) (i : ℕ) (request_id : Uuid) (principal : Principal)
      (request : GatewayRequest F32) (last : ProviderError) (rs : List ModelRoute)
      (w : MemoryWorld Decimal C P Z) (reply : GatewayResponse)
      → get (ledger k w) request_id ≡ none
      → (attempt k.decimals k.from_std
          (memory_gateway k)
          ticks
          i
          request_id
          principal
          request
          last
          rs
          w).0
        ≡ ok reply
      → Billed k request_id reply.usage (
          ledger k
            (attempt k.decimals k.from_std
              (memory_gateway k)
              ticks
              i
              request_id
              principal
              request
              last
              rs
              w).1)
  unfolding attempt provider_for
  attempt-Billed ticks i request_id principal request last [] w reply fresh h = absurd (cc)
  attempt-Billed ticks i request_id principal request last (route ∷ rest) w reply fresh h =
      let w1 =
        (reserve (memory_gateway k) k.from_std (ticks i) request_id principal request route w).1 in
      elim (Result-cases
        (reserve (memory_gateway k) k.from_std (ticks i) request_id principal request route w).0) [
          | inr failed ↦ absurd (ground (arith, failed.1, h))
          | inl done ↦ elim (Option-cases (get k.providers route.provider)) [
            | inl missing ↦ absurd (ground (arith, done.1, missing, h))
            | inr found ↦
                let r = done.0 in
                let called =
                  call k.decimals k.from_std (memory_gateway k) found.0 request_id request route
                    w1 in
                let same : ledger k called.1 ≡ ledger k w =
                  unfold call in reserve-ledger k (ticks i) request_id principal request route w in
                let own =
                  reserve-request_id k (ticks i) request_id principal request route w r done.1 in
                let billed =
                  outcome-Billed (ticks i) request_id principal r rest
                    (λ error.
                      attempt k.decimals k.from_std (memory_gateway k) ticks (suc i) request_id
                        principal request error rest)
                    called.1 reply (ground (arith, fresh, same, own))
                    (λ error v kept through.
                      subst
                        (λ id. Billed k id reply.usage (
                          ledger k
                            (attempt k.decimals k.from_std (memory_gateway k) ticks (suc i)
                              request_id principal request error rest v).1))
                        (sym own)
                        (attempt-Billed ticks (suc i) request_id principal request error rest v
                          reply (ground (arith, fresh, same, kept)) through))
                    called.0 (ground (arith, done.1, found.1, h)) in
                subst
                  (λ id. Billed k id reply.usage (
                    ledger k
                      (attempt k.decimals k.from_std (memory_gateway k) ticks i request_id principal
                        request last (route ∷ rest) w).1))
                  own
                  (subst (Billed k r.request_id reply.usage) (ground (arith, done.1, found.1))
                    billed)
          ]
        ]

  inspect_from-ledger :
      (index_text : ℕ → String) (inspect : Inspect Z) (request_id : Uuid) (principal : Principal)
      (i : ℕ) (ms : List GatewayMessage) (w : MemoryWorld Decimal C P Z)
      → (inspect_from
          (memory_gateway k)
          index_text
          inspect
          request_id
          principal
          i
          ms
          w).1.quota_world
        ≡ w.quota_world
  unfolding inspect_from
  inspect_from-ledger index_text inspect request_id principal i [] w = refl
  inspect_from-ledger index_text inspect request_id principal i (m ∷ ms) w = ground (
    arith,
    inspect_from-ledger index_text inspect request_id principal (suc i) ms (record w {
      security_state =
          (inspect
            (context_for (memory_gateway k) request_id principal ("llm_input:" ++ index_text i))
            (prompt_text m.content) w.security_state).1;
    }),
  )

  inspect_messages-ledger :
      (index_text : ℕ → String) (request_id : Uuid) (principal : Principal)
      (ms : List GatewayMessage) (w : MemoryWorld Decimal C P Z)
      → (inspect_messages (memory_gateway k) index_text request_id principal ms w).1.quota_world
        ≡ w.quota_world
  unfolding inspect_messages
  inspect_messages-ledger index_text request_id principal ms w = elim (Option-cases k.enforcer) [
    | inl off ↦ ground (arith, off)
    | inr on ↦
        ground
          (arith, on.1, inspect_from-ledger index_text on.0.inspect request_id principal 0 ms w)
  ]

  -- Over the in-memory store, where the ledger has no event for the request, a completion that
  -- succeeds leaves a successful event for it in the ledger, with the usage of the response.
  pub execute-Billed :
      (index_text : ℕ → String) (ticks : ℕ → Ticks) (request_id : Uuid) (principal : Principal)
      (request : GatewayRequest F32) (w : MemoryWorld Decimal C P Z) (reply : GatewayResponse)
      → get (ledger k w) request_id ≡ none
      → (execute k.decimals k.from_std
          (memory_gateway k)
          index_text
          ticks
          request_id
          principal
          request
          w).0
        ≡ ok reply
      → Billed k request_id reply.usage (
          ledger k
            (execute k.decimals k.from_std
              (memory_gateway k)
              index_text
              ticks
              request_id
              principal
              request
              w).1)
  unfolding execute
  execute-Billed index_text ticks request_id principal request w reply fresh h =
      elim (Result-cases
        (authorize (memory_gateway k) principal request.model "chat_completion" n w).0) [
          | inr denied ↦ absurd (ground (arith, denied.1, h))
          | inl allowed ↦
              elim (Result-cases
                (inspect_messages (memory_gateway k) index_text request_id principal
                  request.messages w).0) [
                    | inr stopped ↦ absurd (ground (arith, allowed.1, permit, stopped.1, h))
                    | inl passed ↦
                        elim (Result-cases (routes (memory_gateway k) principal request.model)) [
                          | inr unknown ↦
                              absurd (ground (arith, allowed.1, permit, passed.1, unknown.1, h))
                          | inl found ↦
                              let v =
                                (inspect_messages (memory_gateway k) index_text request_id principal
                                  request.messages w).1 in
                              let run : (execute k.decimals k.from_std (memory_gateway k) index_text
                                    ticks request_id principal request w)
                                  ≡ attempt k.decimals k.from_std (memory_gateway k) ticks 0
                                      request_id principal (record request { messages = passed.0 })
                                      ProviderError.unavailable found.0 v =
                                ground (arith, allowed.1, permit, passed.1, found.1) in
                              subst (λ out. Billed k request_id reply.usage (ledger k out.1))
                                (sym run)
                                (attempt-Billed ticks 0 request_id principal
                                  (record request { messages = passed.0 }) ProviderError.unavailable
                                  found.0 v reply (ground (arith, fresh, seen))
                                  (ground (arith, run, h)))
                        ]
                  ]
        ]
    where
      n : ℕ
      n = request.generation.max_output_tokens

      permit : (authorize (memory_gateway k) principal request.model "chat_completion" n w).1 ≡ w
      permit = unfold authorize in ground arith

      seen :
          (inspect_messages
            (memory_gateway k)
            index_text
            request_id
            principal
            request.messages
            w).1.quota_world
          ≡ w.quota_world
      seen = inspect_messages-ledger index_text request_id principal request.messages w
