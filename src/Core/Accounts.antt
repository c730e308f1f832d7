-- ===== src/Core/Accounts.antt =====
-- The reservations of a completion over the in-memory store (crates/gateway-core/src/lib.rs,
-- stores/store-memory/src/lib.rs): whatever the providers, the enforcer, the policies and the
-- counter do, none is left behind.
use mathlib.Core.Path.{subst}
use Prim.Native.String.{◌++◌}
use tuenel.Types.Security.{prompt_text}
use tuenel.Prelude.{
  ℕ, suc, String, sym, ◌≡◌, refl, none, List, [], ◌∷◌, ok, err, arith, nat_eq, Result-cases,
  Option-cases, inl, inr, string_eq,
}
use tuenel.Prelude.Maps.{get, insert}
use tuenel.Types.Identity.{Uuid, Principal}
use tuenel.Types.Inference.{GatewayMessage, GatewayRequest, ModelRoute}
use tuenel.Types.Usage.{QuotaReservation}
use tuenel.Providers.{ProviderError}
use tuenel.Core.Service.{
  provider, Inspect, Ticks, authorize, routes, provider_for, inspect_from, inspect_messages,
  reserve,
}
use tuenel.Core.Execute.{attempt, execute}
use tuenel.Core.Memory.{MemoryConfig, memory_gateway, MemoryWorld, reservations, reserve_ok}
use tuenel.Core.Attempts.{Covered, Fresh, attempt-reservations}

module _ {F32 Decimal C P Z : Type 0} (k : MemoryConfig F32 Decimal C P Z) where
  inspect_from-reservations :
      (index_text : ℕ → String) (inspect : Inspect Z) (request_id : Uuid) (principal : Principal)
      (i : ℕ) (ms : List GatewayMessage) (w : MemoryWorld Decimal C P Z)
      → reservations
          (inspect_from (memory_gateway k) index_text inspect request_id principal i ms w).1
        ≡ reservations w
  unfolding inspect_from
  inspect_from-reservations index_text inspect request_id principal i [] w = refl
  inspect_from-reservations index_text inspect request_id principal i (m ∷ ms) w = ground (
    arith,
    inspect_from-reservations index_text inspect request_id principal (suc i) ms (record w {
      security_state =
          (inspect
            (record {
              request_id = request_id;
              tenant_id = principal.tenant_id;
              project_id = principal.project_id;
              principal_id = principal.principal_id;
              stage = "llm_input:" ++ index_text i;
              tool_risk = none;
            })
            (prompt_text m.content) w.security_state).1;
    }),
  )

  pub inspect_messages-reservations :
      (index_text : ℕ → String) (request_id : Uuid) (principal : Principal)
      (ms : List GatewayMessage) (w : MemoryWorld Decimal C P Z)
      → reservations (inspect_messages (memory_gateway k) index_text request_id principal ms w).1
        ≡ reservations w
  unfolding inspect_messages
  inspect_messages-reservations index_text request_id principal ms w =
      elim (Option-cases k.enforcer) [
        | inl off ↦ ground (arith, off)
        | inr on ↦ ground (
          arith,
          on.1,
          inspect_from-reservations index_text on.0.inspect request_id principal 0 ms w,
        )
      ]

  -- Over the in-memory store, if no reservation has the id of an attempt and every route for the
  -- model has its provider in the registry, a completion leaves the map of reservations as it
  -- found it, whatever its result.
  pub execute-reservations :
      (index_text : ℕ → String) (ticks : ℕ → Ticks) (request_id : Uuid) (principal : Principal)
      (request : GatewayRequest F32) (rs : List ModelRoute) (w : MemoryWorld Decimal C P Z)
      → routes (memory_gateway k) principal request.model ≡ ok rs
      → Covered k rs
      → Fresh k ticks (reservations w)
      → reservations
          (execute k.decimals k.from_std
            (memory_gateway k)
            index_text
            ticks
            request_id
            principal
            request
            w).1
        ≡ reservations w
  unfolding execute
  execute-reservations index_text ticks request_id principal request rs w found cov fresh =
      elim (Result-cases
        (authorize (memory_gateway k) principal request.model "chat_completion" n w).0) [
          | inr denied ↦ ground (arith, denied.1, permit)
          | inl allowed ↦
              elim (Result-cases
                (inspect_messages (memory_gateway k) index_text request_id principal
                  request.messages w).0) [
                    | inr stopped ↦ ground (arith, allowed.1, permit, stopped.1, seen)
                    | inl passed ↦
                        let v =
                          (inspect_messages (memory_gateway k) index_text request_id principal
                            request.messages w).1 in
                        ground (
                          arith,
                          allowed.1,
                          permit,
                          passed.1,
                          seen,
                          found,
                          attempt-reservations k ticks 0 request_id principal
                              (record request { messages = passed.0 }) ProviderError.unavailable rs
                              v (subst (Fresh k ticks) (sym seen) fresh) cov,
                        )
                  ]
        ]
    where
      n : ℕ
      n = request.generation.max_output_tokens

      permit : (authorize (memory_gateway k) principal request.model "chat_completion" n w).1 ≡ w
      permit = unfold authorize in ground arith

      seen :
          reservations
            (inspect_messages
              (memory_gateway k)
              index_text
              request_id
              principal
              request.messages
              w).1
          ≡ reservations w
      seen = inspect_messages-reservations index_text request_id principal request.messages w

  -- If the provider of the first route is not in the registry, a reservation made for the route
  -- stays in the map when the attempts fail with the provider unavailable.
  pub attempt_leak :
      (ticks : ℕ → Ticks) (i : ℕ) (request_id : Uuid) (principal : Principal)
      (request : GatewayRequest F32) (last : ProviderError) (route : ModelRoute)
      (rest : List ModelRoute) (w : MemoryWorld Decimal C P Z) (r : QuotaReservation)
      → get k.providers route.provider ≡ none
      → (reserve (memory_gateway k) k.from_std (ticks i) request_id principal request route w).0
        ≡ ok r
      → ((attempt k.decimals k.from_std
            (memory_gateway k)
            ticks
            i
            request_id
            principal
            request
            last
            (route ∷ rest)
            w).0
          ≡ err (provider ProviderError.unavailable))
        × (reservations
              (attempt k.decimals k.from_std
                (memory_gateway k)
                ticks
                i
                request_id
                principal
                request
                last
                (route ∷ rest)
                w).1
            ≡ insert (reservations w) (ticks i).reservation_id r)
  unfolding attempt provider_for
  attempt_leak ticks i request_id principal request last route rest w r missing done =
      ground
        (arith, missing, done, reserve_ok k (ticks i) request_id principal request route w r done)
