-- ===== src/Types/Usage.antt =====
-- The usage ledger and quota reservations (crates/gateway-types/src/lib.rs).
use tuenel.Prelude.{
  ℕ, String, Bool, true, false, Option, ◌≡◌, ◌↔◌, ap, Eq, ◌==◌, eq_iff, nat_beq_iff,
}
use tuenel.Prelude.{string_eq, nat_eq}
use tuenel.Prelude.Words.{wrapping_add}
use tuenel.Types.Identity.{Uuid, DateTime}
use tuenel.Types.Inference.{TokenUsage}

pub data UsageStatus : Type 0 where
  succeeded provider_failed interrupted : UsageStatus

pub data PricingStatus : Type 0 where
  priced unpriced legacy_estimate : PricingStatus

pub record UsageEvent (Decimal : Type 0) : Type 0 where
  pub event_id : Uuid
  pub request_id : Uuid
  pub tenant_id : String
  pub project_id : Option String
  pub principal_id : String
  pub user_id : Option String
  pub provider : String
  pub requested_model : String
  pub upstream_model : String
  pub usage : TokenUsage
  pub estimated_cost : Decimal
  pub pricing_status : PricingStatus
  pub status : UsageStatus
  pub latency_ms : Option ℕ
  pub occurred_at : DateTime

pub data QuotaOwner : Type 0 where
  tenant : String → QuotaOwner
  virtual_key : Uuid → QuotaOwner

-- The derived `PartialEq`.
abbrev pub owner_beq : QuotaOwner → QuotaOwner → Bool
owner_beq (tenant a) (tenant b) = a == b
owner_beq (tenant a) (virtual_key b) = false
owner_beq (virtual_key a) (tenant b) = false
owner_beq (virtual_key a) (virtual_key b) = a == b

pub owner_beq_iff : (a b : QuotaOwner) → (owner_beq a b ≡ true) ↔ (a ≡ b)
owner_beq_iff (tenant a) (tenant b) =
    ((λ h. ap tenant ((eq_iff a b).0 h)), λ h. (eq_iff a b).1 (cc))
owner_beq_iff (tenant a) (virtual_key b) = ((λ h. cc), λ h. cc)
owner_beq_iff (virtual_key a) (tenant b) = ((λ h. cc), λ h. cc)
owner_beq_iff (virtual_key a) (virtual_key b) =
    ((λ h. ap virtual_key ((nat_beq_iff a b).0 h)), λ h. (nat_beq_iff a b).1 (cc))

instance abbrev pub owner_eq : Eq QuotaOwner
owner_eq = record { beq = owner_beq; beq_iff = owner_beq_iff }

pub record QuotaReservation : Type 0 where
  pub reservation_id : Uuid
  pub request_id : Uuid
  pub owner : QuotaOwner
  pub tenant_id : String
  pub project_id : Option String
  pub principal_id : String
  pub user_id : Option String
  pub provider : String
  pub requested_model : String
  pub upstream_model : String
  pub prompt_tokens : ℕ
  pub completion_tokens : ℕ
  pub expires_at : DateTime

unfoldable pub reserved_tokens : QuotaReservation → ℕ
reserved_tokens r = wrapping_add r.prompt_tokens r.completion_tokens
