-- ===== src/Core/Attempts.antt =====
-- The reservations of the attempts at a list of routes (crates/gateway-core/src/lib.rs).
use mathlib.Core.Path.{subst}
use tuenel.Prelude.{
  ℕ, suc, sym, ◌∙◌, ◌≡◌, refl, true, not, ◌&&◌, none, List, [], ◌∷◌, Result, ok, err, Exec, All,
  arith, nat_eq, is_some, Result-cases, Option-cases, inl, inr, string_eq, is_empty,
}
use tuenel.Prelude.Maps.{HashMap, get, remove, remove-insert}
use tuenel.Types.Identity.{Uuid, Principal}
use tuenel.Types.Inference.{GatewayRequest, GatewayResponse, ModelRoute}
use tuenel.Types.Usage.{QuotaReservation, provider_failed}
use tuenel.Providers.{ProviderError}
use tuenel.Routing.{retryable}
use tuenel.Core.Service.{GatewayError, Ticks, provider_for, reserve, record_or_release}
use tuenel.Core.Execute.{call, outcome, attempt, failed_usage}
use tuenel.Core.Memory.{
  MemoryConfig, memory_gateway, MemoryWorld, reservations, reserve_ok, reserve_err,
  record_or_release-removes, answered-removes, call-reservations,
}

module _ {F32 Decimal C P Z : Type 0} (k : MemoryConfig F32 Decimal C P Z) where
  -- Every route has its provider in the registry.
  abbrev pub Covered : List ModelRoute → Type 0
  Covered = All (λ r. is_some (get k.providers r.provider) ≡ true)

  -- No reservation has the id of an attempt.
  abbrev pub Fresh : (ℕ → Ticks) → HashMap Uuid QuotaReservation → Type 0
  Fresh ticks m = (j : ℕ) → get m (ticks j).reservation_id ≡ none

  module _ (ticks : Ticks) (request_id : Uuid) (principal : Principal) (r : QuotaReservation)
      (rest : List ModelRoute)
      (next : ProviderError → Exec (MemoryWorld Decimal C P Z) GatewayError GatewayResponse)
      (w : MemoryWorld Decimal C P Z)
      (later : (error : ProviderError) (v : MemoryWorld Decimal C P Z)
        → reservations v ≡ remove (reservations w) r.reservation_id
        → reservations (next error v).1 ≡ reservations v) where
    -- Whatever the provider answers, the reservation is gone in the end.
    outcome-removes :
        (result : Result ProviderError GatewayResponse)
        → reservations
            (outcome k.decimals k.from_std
              (memory_gateway k)
              ticks
              request_id
              principal
              r
              rest
              next
              result
              w).1
          ≡ remove (reservations w) r.reservation_id
    unfolding outcome
    outcome-removes (ok response) = answered-removes k ticks request_id principal r response w
    outcome-removes (err error) =
        let b = not (is_empty rest) && retryable error in
        let v =
          (record_or_release (memory_gateway k) k.decimals ticks r (failed_usage r) provider_failed
            b w).1 in
        let gone = record_or_release-removes k ticks r (failed_usage r) provider_failed b w in
        ground (arith, gone, later error v gone.1)

  pub attempt-reservations :
      (ticks : ℕ → Ticks) (i : ℕ) (request_id : Uuid) (principal : Principal)
      (request : GatewayRequest F32) (last : ProviderError) (rs : List ModelRoute)
      (w : MemoryWorld Decimal C P Z)
      → Fresh ticks (reservations w)
      → Covered rs
      → reservations
          (attempt k.decimals k.from_std
            (memory_gateway k)
            ticks
            i
            request_id
            principal
            request
            last
            rs
            w).1
        ≡ reservations w
  unfolding attempt provider_for
  attempt-reservations ticks i request_id principal request last [] w fresh cov = refl
  attempt-reservations ticks i request_id principal request last (route ∷ rest) w fresh cov =
      let id : Uuid = (ticks i).reservation_id in
      let w1 : MemoryWorld Decimal C P Z =
        (reserve (memory_gateway k) k.from_std (ticks i) request_id principal request route w).1 in
      elim (Result-cases
        (reserve (memory_gateway k) k.from_std (ticks i) request_id principal request route w).0) [
          | inr failed ↦ ground (
            arith,
            failed.1,
            reserve_err k (ticks i) request_id principal request route w failed.0 failed.1,
          )
          | inl done ↦ elim (Option-cases (get k.providers route.provider)) [
            | inl missing ↦ absurd (ground (arith, missing, cov.0))
            | inr found ↦
                let r = done.0 in
                let kept = reserve_ok k (ticks i) request_id principal request route w r done.1 in
                let p = found.0 in
                let w2 =
                  (call k.decimals k.from_std (memory_gateway k) p request_id request route w1).1 in
                let gone = remove-insert (reservations w) id r (fresh i) in
                let back : remove (reservations w2) r.reservation_id ≡ reservations w =
                  ground (arith, kept, gone, call-reservations k p request_id request route w1) in
                let rest_of =
                  outcome-removes (ticks i) request_id principal r rest
                    (λ error.
                      attempt k.decimals k.from_std (memory_gateway k) ticks (suc i) request_id
                        principal request error rest)
                    w2
                    (λ error v same.
                      attempt-reservations ticks (suc i) request_id principal request error rest v
                        (subst (Fresh ticks) (sym (same ∙ back)) fresh) cov.1)
                    (call k.decimals k.from_std (memory_gateway k) p request_id request route
                      w1).0 in
                ground (arith, done.1, found.1, rest_of, back)
          ]
        ]
