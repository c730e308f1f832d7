-- ===== src/Store/Boundary.antt =====
-- crates/gateway-store/src/lib.rs: the trait as a record of operations over the state `S` of an
-- implementation. Each call of `Utc::now` in an implementation is an argument.
use tuenel.Prelude.{ℕ, String, Bool, Option, List, Exec}
use tuenel.Types.Identity.{Uuid, DateTime, VirtualKeyRecord}
use tuenel.Types.Usage.{UsageEvent, QuotaReservation}

pub record TenantRecord : Type 0 where
  pub id : String
  pub daily_token_limit : ℕ

pub data StoreError : Type 0 where
  conflict not_found unavailable : StoreError

pub record GatewayStore (Decimal S : Type 0) : Type 0 where
  pub ping : Exec S StoreError (Unit {0})
  pub insert_tenant : TenantRecord → Exec S StoreError (Unit {0})
  pub find_tenant : String → Exec S StoreError (Option TenantRecord)
  pub project_for_endpoint : String → Exec S StoreError (Option (String × String))
  pub plan_requests_per_minute : String → Exec S StoreError (Option ℕ)
  pub plan_resource_usage : String → String → Exec S StoreError (Option (ℕ × ℕ))
  pub plan_feature_enabled : String → String → Exec S StoreError (Option Bool)
  pub insert_virtual_key : VirtualKeyRecord Decimal → Exec S StoreError (Unit {0})
  pub find_virtual_key_by_prefix : String → Exec S StoreError (Option (VirtualKeyRecord Decimal))
  pub touch_virtual_key : Uuid → Exec S StoreError (Unit {0})
  pub revoke_virtual_key : DateTime → String → Option String → Uuid → Exec S StoreError Bool
  pub reserve_quota : DateTime → QuotaReservation → Exec S StoreError Bool
  pub finalize_usage : Uuid → UsageEvent Decimal → Exec S StoreError (Unit {0})
  pub release_reservation : Uuid → Exec S StoreError (Unit {0})
  pub expired_reservations : DateTime → Exec S StoreError (List QuotaReservation)
  pub usage_by_request : Uuid → Exec S StoreError (Option (UsageEvent Decimal))
