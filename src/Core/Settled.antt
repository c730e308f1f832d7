-- ===== src/Core/Settled.antt =====
-- The reservations of the loops over routes (crates/gateway-core/src/lib.rs) over the in-memory
-- store, for every operation that has such a loop.
use mathlib.Core.Path.{subst}
use tuenel.Prelude.{
  ℕ, suc, sym, ◌≡◌, refl, Bool, not, ◌&&◌, none, List, [], ◌∷◌, Result, ok, err, Exec, ◌>>=◌, lift,
  arith, nat_eq, Bool-cases, Result-cases, Option-cases, inl, inr, string_eq, is_empty,
}
use tuenel.Prelude.Maps.{HashMap, get, insert, remove, remove-insert}
use tuenel.Types.Identity.{Uuid, Principal}
use tuenel.Types.Inference.{GatewayRequest, ModelRoute}
use tuenel.Types.Usage.{QuotaReservation, provider_failed}
use tuenel.Providers.{ProviderError}
use tuenel.Routing.{retryable}
use tuenel.Core.Service.{GatewayError, provider, Ticks, provider_for, reserve, record_or_release}
use tuenel.Core.Memory.{
  MemoryConfig, memory_gateway, MemoryWorld, reservations, reserve_ok, reserve_err,
  record_or_release-removes,
}
use tuenel.Core.Attempts.{Covered, Fresh}
use tuenel.Core.Fallback.{Operation, call_provider, settle_attempt, attempts}

-- An action leaves the map of reservations as it is.
abbrev pub Keeps :
    {Decimal C P Z B : Type 0} → Exec (MemoryWorld Decimal C P Z) GatewayError B → Type 0
Keeps {Decimal} {C} {P} {Z} f =
    (w : MemoryWorld Decimal C P Z) → reservations (f w).1 ≡ reservations w

module _ {Decimal C P Z B : Type 0} (m : HashMap Uuid QuotaReservation)
    (Q : Result GatewayError B → HashMap Uuid QuotaReservation → Type 0)
    (fails : (e : GatewayError) → Q (err e) m) where
  -- The pair of a result and the map of reservations has the property.
  abbrev pub Settles : Result GatewayError B × MemoryWorld Decimal C P Z → Type 0
  Settles p = Q p.0 (reservations p.1)

  failed_at :
      (e : GatewayError) (p : Result GatewayError B × MemoryWorld Decimal C P Z)
      → p.0 ≡ err e
      → reservations p.1 ≡ m
      → Settles p
  failed_at e p h same =
      subst (λ r. Q r (reservations p.1)) (sym h) (subst (Q (err e)) (sym same) (fails e))

  moved : (p q : Result GatewayError B × MemoryWorld Decimal C P Z) → p ≡ q → Settles q → Settles p
  moved p q same h = subst Settles (sym same) h

  -- An action that leaves the reservations alone may come first.
  pub bind-Settles :
      {A : Type 0} (f : Exec (MemoryWorld Decimal C P Z) GatewayError A)
      (next : A → Exec (MemoryWorld Decimal C P Z) GatewayError B)
      → Keeps f
      → ((a : A) (v : MemoryWorld Decimal C P Z) → reservations v ≡ m → Settles (next a v))
      → (w : MemoryWorld Decimal C P Z) → reservations w ≡ m
      → Settles ((f >>= next) w)
  bind-Settles f next keeps later w same = elim (Result-cases (f w).0) [
    | inr failed ↦
        failed_at failed.0 ((f >>= next) w) (ground (arith, failed.1))
          (ground (arith, failed.1, keeps w, same))
    | inl done ↦
        moved ((f >>= next) w) (next done.0 (f w).1) (ground (arith, done.1))
          (later done.0 (f w).1 (ground (arith, keeps w, same)))
  ]

  -- A result that is known may come first.
  pub known-Settles :
      {A : Type 0} (found : Result GatewayError A) (a : A)
      (next : A → Exec (MemoryWorld Decimal C P Z) GatewayError B) (w : MemoryWorld Decimal C P Z)
      → found ≡ ok a
      → Settles (next a w)
      → Settles ((lift found >>= next) w)
  known-Settles found a next w h later =
      moved ((lift found >>= next) w) (next a w) (ground (arith, h)) later

module _ {F32 Decimal C P Z A B : Type 0} (k : MemoryConfig F32 Decimal C P Z)
    (o : Operation F32 P (MemoryWorld Decimal C P Z) A B) (m : HashMap Uuid QuotaReservation)
    (Q : Result GatewayError B → HashMap Uuid QuotaReservation → Type 0)
    (fails : (e : GatewayError) → Q (err e) m)
    (answers : (t : Ticks) (r : QuotaReservation) (a : A) (w : MemoryWorld Decimal C P Z)
      → get m r.reservation_id ≡ none
      → reservations w ≡ insert m r.reservation_id r
      → Q (o.on_answer t r a w).0 (reservations (o.on_answer t r a w).1)) where
  module _ (ticks : Ticks) (r : QuotaReservation) (rest : List ModelRoute)
      (next : ProviderError → Exec (MemoryWorld Decimal C P Z) GatewayError B)
      (later : (error : ProviderError) (v : MemoryWorld Decimal C P Z)
        → reservations v ≡ m
        → Settles m Q fails (next error v))
      (w : MemoryWorld Decimal C P Z) (fresh : get m r.reservation_id ≡ none)
      (held : reservations w ≡ insert m r.reservation_id r) where
    settle_attempt-Settles :
        (result : Result ProviderError A)
        → Settles m Q fails
            (settle_attempt k.decimals k.from_std (memory_gateway k) o ticks r rest next result w)
    unfolding settle_attempt
    settle_attempt-Settles (ok a) = answers ticks r a w fresh held
    settle_attempt-Settles (err error) = elim (Bool-cases b) [
      | inl again ↦
          moved m Q fails
            (settle_attempt k.decimals k.from_std (memory_gateway k) o ticks r rest next (err error)
              w)
            (next error v) (unfold settle_attempt in ground (arith, again, gone))
            (later error v back)
      | inr last ↦
          failed_at m Q fails (provider error)
            (settle_attempt k.decimals k.from_std (memory_gateway k) o ticks r rest next (err error)
              w)
            (unfold settle_attempt in ground (arith, last, gone))
            (unfold settle_attempt in ground (arith, last, gone, back))
    ]
      where
        b : Bool
        b = not (is_empty rest) && retryable error

        v : MemoryWorld Decimal C P Z
        v =
            (record_or_release (memory_gateway k) k.decimals ticks r (o.failed_usage_of r)
              provider_failed b w).1

        gone :
            ((record_or_release
                (memory_gateway k)
                k.decimals
                ticks
                r
                (o.failed_usage_of r)
                provider_failed
                b
                w).0
              ≡ ok tt)
            × (reservations v ≡ remove (reservations w) r.reservation_id)
        gone = record_or_release-removes k ticks r (o.failed_usage_of r) provider_failed b w

        back : reservations v ≡ m
        back = ground (arith, gone, held, remove-insert m r.reservation_id r fresh)

  pub attempts-Settles :
      (ticks : ℕ → Ticks) (i : ℕ) (request_id : Uuid) (principal : Principal)
      (legacy : GatewayRequest F32) (last : ProviderError) (rs : List ModelRoute)
      (w : MemoryWorld Decimal C P Z)
      → reservations w ≡ m
      → Fresh k ticks m
      → Covered k rs
      → Settles m Q fails (
          attempts k.decimals k.from_std
            (memory_gateway k)
            o
            ticks
            i
            request_id
            principal
            legacy
            last
            rs
            w)
  unfolding attempts
  attempts-Settles ticks i request_id principal legacy last [] w same fresh cov =
      failed_at m Q fails (provider last) (err (provider last), w) refl same
  attempts-Settles ticks i request_id principal legacy last (route ∷ rest) w same fresh cov =
      elim (Result-cases
        (reserve (memory_gateway k) k.from_std (ticks i) request_id principal legacy route w).0) [
          | inr failed ↦
              failed_at m Q fails failed.0 (loop w) (unfold attempts in ground (arith, failed.1)) (
                unfold attempts in
                ground (
                  arith,
                  same,
                  failed.1,
                  reserve_err k (ticks i) request_id principal legacy route w failed.0 failed.1,
                ))
          | inl done ↦ elim (Option-cases (get k.providers route.provider)) [
            | inl missing ↦ absurd (ground (arith, missing, cov.0))
            | inr found ↦
                let r = done.0 in
                let kept = reserve_ok k (ticks i) request_id principal legacy route w r done.1 in
                let called =
                  call_provider k.decimals k.from_std (memory_gateway k) o found.0 request_id route
                    w1 in
                moved m Q fails (loop w)
                  (settle_attempt k.decimals k.from_std (memory_gateway k) o (ticks i) r rest next
                    called.0 called.1)
                  (unfold attempts provider_for in ground (arith, done.1, found.1))
                  (settle_attempt-Settles (ticks i) r rest next
                    (λ error v back.
                      attempts-Settles ticks (suc i) request_id principal legacy error rest v back
                        fresh cov.1)
                    called.1 (ground (arith, kept, fresh i))
                    (unfold call_provider in ground (arith, kept, same)) called.0)
          ]
        ]
    where
      loop : Exec (MemoryWorld Decimal C P Z) GatewayError B
      loop =
          attempts k.decimals k.from_std (memory_gateway k) o ticks i request_id principal legacy
            last (route ∷ rest)

      next : ProviderError → Exec (MemoryWorld Decimal C P Z) GatewayError B
      next error =
          attempts k.decimals k.from_std (memory_gateway k) o ticks (suc i) request_id principal
            legacy error rest

      w1 : MemoryWorld Decimal C P Z
      w1 = (reserve (memory_gateway k) k.from_std (ticks i) request_id principal legacy route w).1
