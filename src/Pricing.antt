-- ===== src/Pricing.antt =====
-- crates/gateway-pricing/src/lib.rs: model prices with a time window, the cost of a request, and
-- the check that no two windows of a model overlap.
pub mod Windows
use tuenel.Prelude.{
  ℕ, ◌-◌, String, Bool, true, false, ◌&&◌, Option, none, some, List, [], ◌∷◌, Result, ok, err, ltb,
  leb, ◌==◌, string_eq, any, if◌then◌else◌,
}
use tuenel.Types.Identity.{Uuid, DateTime}
use tuenel.Types.Decimal.{DecimalOps}

pub record ModelPrice (Decimal : Type 0) : Type 0 where
  pub price_id : Uuid
  pub provider_id : String
  pub upstream_model : String
  pub input_cost_per_million : Decimal
  pub output_cost_per_million : Decimal
  pub cached_input_cost_per_million : Option Decimal
  pub embedding_cost_per_million : Option Decimal
  pub effective_from : DateTime
  pub effective_until : Option DateTime

pub data PricingError : Type 0 where
  overlapping_windows unavailable : PricingError

-- `until.is_none_or(|until| t < until)`
abbrev pub before_end : Option DateTime → DateTime → Bool
before_end none t = true
before_end (some until) t = ltb t until

abbrev pub unwrap_or {ℓ} : {A : Type ℓ} → Option A → A → A
unwrap_or none a = a
unwrap_or (some b) a = b

module _ {Decimal : Type 0} where
  unfoldable pub active_at : ModelPrice Decimal → DateTime → Bool
  active_at p at = leb p.effective_from at && before_end p.effective_until at

  -- ModelPrice::cost; `saturating_sub` is the truncated subtraction
  unfoldable pub cost : DecimalOps Decimal → ModelPrice Decimal → ℕ → ℕ → ℕ → Decimal → Decimal
  cost d p input output cached_input markup =
      let million = d.from_u64 1000000 in
      let input_cost =
        d.div (d.mul (d.from_u64 (input - cached_input)) p.input_cost_per_million) million in
      let cached_cost =
        d.div
          (d.mul (unwrap_or p.cached_input_cost_per_million p.input_cost_per_million)
            (d.from_u64 cached_input))
          million in
      let output_cost = d.div (d.mul (d.from_u64 output) p.output_cost_per_million) million in
      d.mul (d.add (d.add input_cost cached_cost) output_cost) (d.add d.one markup)

  -- The condition under which `validate_no_overlap` fails on a pair.
  unfoldable pub overlaps : ModelPrice Decimal → ModelPrice Decimal → Bool
  overlaps left right =
      left.provider_id == right.provider_id
      && left.upstream_model == right.upstream_model
      && before_end left.effective_until right.effective_from
      && before_end right.effective_until left.effective_from

  unfoldable pub validate_no_overlap : List (ModelPrice Decimal) → Result PricingError (Unit {0})
  validate_no_overlap [] = ok tt
  validate_no_overlap (left ∷ prices) =
      let rest = validate_no_overlap prices in
      if any (overlaps left) prices then err overlapping_windows else rest
