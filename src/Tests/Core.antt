-- ===== src/Tests/Core.antt =====
-- The theorems on a completion, at a request of one message.
use tuenel.Prelude.{
  nat_eq, ℕ, ◌≡◌, refl, Bool, true, false, Option, none, some, List, [], ◌∷◌, Result, ok, err, inl,
  inr, All,
}
use tuenel.Prelude.Maps.{get, insert, remove}
use tuenel.Policy.{PolicyError, default}
use tuenel.Providers.{ProviderError}
use tuenel.Core.Service.{
  provider, policy, reserve, routes, model_scopes, strip_prefix, authorize, inspect_messages,
  provider_for, inspect_response, record_outcome, usage_event,
}
use tuenel.Types.Usage.{reserved_tokens}
use tuenel.Types.Inference.{prompt_token_upper_bound}
use tuenel.Core.Execute.{attempt, answered, execute, call, outcome, timed}
use tuenel.Core.Memory.{memory_gateway, reservations}
use tuenel.Core.Accounts.{execute-reservations, attempt_leak}
use tuenel.Core.Ledger.{ledger, Billed}
use tuenel.Core.Billing.{execute-Billed}
use tuenel.Core.Access.{execute_denied}
use tuenel.Routing
use tuenel.Policy
use tuenel.Quota
use tuenel.Metering
use tuenel.Store.Memory.{
  limit_of, used_tokens, pending_tokens, is_charged, reserve_quota, finalize_usage, memory_store,
}
use tuenel.Tests.Data.{
  caller, scoped_caller, route, response, request, config, bare_config, world, ticks, reservation,
}

execute-reservations_example :
    reservations
      (execute config.decimals config.from_std
        (memory_gateway config)
        (λ _. "0")
        ticks
        9
        caller
        request
        world).1
    ≡ reservations world
unfolding routes Routing.route_for Routing.selected Routing.selected_rank Routing.candidates
    Routing.enabled_targets Routing.rank Routing.max_rank Routing.model_route get
execute-reservations_example =
    execute-reservations config (λ _. "0") ticks 9 caller request (route ∷ []) world refl (refl, tt)
      (λ j. refl)

execute-Billed_example : Billed config 9 response.usage (
    ledger config
      (execute config.decimals config.from_std
        (memory_gateway config)
        (λ _. "0")
        ticks
        9
        caller
        request
        world).1)
unfolding routes Routing.route_for Routing.selected Routing.selected_rank Routing.candidates
    Routing.enabled_targets Routing.rank Routing.max_rank Routing.model_route execute authorize
    model_scopes Policy.authorize Policy.allows_model Policy.allows_operation inspect_messages
    attempt reserve provider_for Quota.reserve Quota.reserve_counter Quota.settle Quota.owner_of
    Quota.new_reservation reserve_quota limit_of used_tokens pending_tokens is_charged
    reserved_tokens prompt_token_upper_bound memory_store call outcome answered timed
    inspect_response record_outcome usage_event finalize_usage Metering.finalize Metering.cost_for
    Metering.cost Quota.release_counter Quota.release_if_held get mathlib.Core.List.filter_map
    tuenel.Prelude.Maps.values
execute-Billed_example =
    execute-Billed config (λ _. "0") ticks 9 caller request world response refl refl

execute_denied_example :
    execute config.decimals config.from_std
      (memory_gateway config)
      (λ _. "0")
      ticks
      9
      scoped_caller
      request
      world
    ≡ (err (policy PolicyError.denied), world)
unfolding model_scopes strip_prefix mathlib.Core.List.filter_map
execute_denied_example =
    execute_denied config.decimals config.from_std (memory_gateway config) (λ _. "0") ticks 9
      scoped_caller request world (inl (refl, refl))

attempt_leak_example :
    ((attempt bare_config.decimals bare_config.from_std
        (memory_gateway bare_config)
        ticks
        0
        9
        caller
        request
        ProviderError.unavailable
        (route ∷ [])
        world).0
      ≡ err (provider ProviderError.unavailable))
    × (reservations
          (attempt bare_config.decimals bare_config.from_std
            (memory_gateway bare_config)
            ticks
            0
            9
            caller
            request
            ProviderError.unavailable
            (route ∷ [])
            world).1
        ≡ insert (reservations world) 100 reservation)
unfolding routes Routing.route_for Routing.selected Routing.selected_rank Routing.candidates
    Routing.enabled_targets Routing.rank Routing.max_rank Routing.model_route execute authorize
    model_scopes Policy.authorize Policy.allows_model Policy.allows_operation inspect_messages
    attempt reserve provider_for Quota.reserve Quota.reserve_counter Quota.settle Quota.owner_of
    Quota.new_reservation reserve_quota limit_of used_tokens pending_tokens is_charged
    reserved_tokens prompt_token_upper_bound memory_store call outcome answered timed
    inspect_response record_outcome usage_event finalize_usage Metering.finalize Metering.cost_for
    Metering.cost Quota.release_counter Quota.release_if_held get mathlib.Core.List.filter_map
    tuenel.Prelude.Maps.values
attempt_leak_example =
    attempt_leak bare_config ticks 0 9 caller request ProviderError.unavailable route [] world
      reservation refl refl
