-- ===== src/Core/Access.antt =====
-- Completions that are not authorized (crates/gateway-core/src/lib.rs).
use tuenel.Prelude.{
  ℕ, String, ◌≡◌, ◌⊎◌, false, Option, ok, err, arith, contains, string_eq, is_empty, inl, inr,
}
use tuenel.Types.Identity.{Uuid, Principal}
use tuenel.Types.Inference.{GatewayRequest}
use tuenel.Types.Decimal.{DecimalOps}
use tuenel.Policy
use tuenel.Policy.{PolicyError, Policy}
use tuenel.Core.Service.{GatewayService, World, Ticks, policy, authorize, model_scopes}
use tuenel.Core.Execute.{execute}

module _ {F32 Decimal S C P Z : Type 0} (d : DecimalOps Decimal) (from_std : ℕ → Option ℕ)
    (g : GatewayService F32 Decimal S C P Z) where
  -- A request whose model is not among the caller's model scopes, where there are any, fails as
  -- denied whatever the policy resolver would answer, and so does one that the resolved policy does
  -- not authorize. Nothing of the world changes: no inspection, no reservation and no call of a
  -- provider is made.
  pub execute_denied :
      (index_text : ℕ → String) (ticks : ℕ → Ticks) (request_id : Uuid) (principal : Principal)
      (request : GatewayRequest F32) (w : World S C P Z)
      → ((is_empty (model_scopes principal) ≡ false)
          × (contains (model_scopes principal) request.model ≡ false))
        ⊎ ((p : Policy) × (g.policy_resolver principal ≡ ok p)
            × (Policy.authorize p request.model "chat_completion"
                  request.generation.max_output_tokens
                ≡ err PolicyError.denied))
      → execute d from_std g index_text ticks request_id principal request w
        ≡ (err (policy PolicyError.denied), w)
  unfolding execute authorize
  execute_denied index_text ticks request_id principal request w (inl h) = ground (arith, h)
  execute_denied index_text ticks request_id principal request w (inr (p, hp, h)) =
      ground (arith, hp, h)
