-- ===== src/Metering.antt =====
-- crates/gateway-metering/src/lib.rs: cost estimates, and the finalization and release of quota
-- over any implementation of the store. The catalog is the trait `PricingCatalog` as a function.
use tuenel.Prelude.{ℕ, String, Option, none, some, Result, ok, err, Exec, map_err}
use tuenel.Types.Identity.{Uuid, DateTime}
use tuenel.Types.Decimal.{DecimalOps}
use tuenel.Types.Usage.{
  PricingStatus, priced, unpriced, legacy_estimate, UsageEvent, QuotaReservation,
}
use tuenel.Store.Boundary.{GatewayStore}
use tuenel.Pricing.{ModelPrice, PricingError}

pub record Pricing (Decimal : Type 0) : Type 0 where
  pub input_per_million : Decimal
  pub output_per_million : Decimal

pub record CostEstimate (Decimal : Type 0) : Type 0 where
  pub amount : Decimal
  pub status : PricingStatus

pub data MeteringError : Type 0 where
  unavailable : MeteringError

-- PricingCatalog::active_price
abbrev pub PricingCatalog : Type 0 → Type 0
PricingCatalog Decimal =
    String → String → DateTime → Result PricingError (Option (ModelPrice Decimal))

pub record MeteringService (Decimal S : Type 0) : Type 0 where
  pub store : GatewayStore Decimal S
  pub pricing : Pricing Decimal
  pub catalog : Option (PricingCatalog Decimal)

module _ {Decimal : Type 0} (d : DecimalOps Decimal) where
  -- Pricing::cost
  unfoldable pub cost : Pricing Decimal → ℕ → ℕ → Decimal
  cost p prompt_tokens completion_tokens =
      d.round_dp
        (d.div
          (d.add (d.mul (d.from_u64 prompt_tokens) p.input_per_million)
            (d.mul (d.from_u64 completion_tokens) p.output_per_million))
          (d.from_u64 1000000))
        8

  -- The estimate from the catalog's answer.
  unfoldable pub catalog_estimate :
      Result PricingError (Option (ModelPrice Decimal)) → ℕ → ℕ → CostEstimate Decimal
  catalog_estimate (ok (some price)) prompt_tokens completion_tokens = record {
    amount =
        d.round_dp (tuenel.Pricing.cost d price prompt_tokens completion_tokens 0 d.zero_value) 8;
    status = priced;
  }
  catalog_estimate (ok none) prompt_tokens completion_tokens = record {
    amount = d.zero_value;
    status = unpriced;
  }
  catalog_estimate (err e) prompt_tokens completion_tokens = record {
    amount = d.zero_value;
    status = unpriced;
  }

  unfoldable pub cost_for :
      {S : Type 0}
      → MeteringService Decimal S
      → DateTime
      → String
      → String
      → ℕ
      → ℕ
      → CostEstimate Decimal
  cost_for m now provider model prompt_tokens completion_tokens = elim m.catalog [
    | none ↦ record {
      amount = cost m.pricing prompt_tokens completion_tokens;
      status = legacy_estimate;
    }
    | some catalog ↦ catalog_estimate (catalog provider model now) prompt_tokens completion_tokens
  ]

module _ {Decimal S : Type 0} where
  unfoldable pub finalize :
      MeteringService Decimal S
      → QuotaReservation
      → UsageEvent Decimal
      → Exec S MeteringError (Unit {0})
  finalize m reservation event s =
      let (r, s') = m.store.finalize_usage reservation.reservation_id event s in
      (map_err (λ _. unavailable) r, s')

  unfoldable pub release : MeteringService Decimal S → Uuid → Exec S MeteringError (Unit {0})
  release m reservation_id s =
      let (r, s') = m.store.release_reservation reservation_id s in
      (map_err (λ _. unavailable) r, s')
