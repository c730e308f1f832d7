-- ===== src/Types/Identity.antt =====
-- Principals and virtual keys (crates/gateway-types/src/lib.rs).
use tuenel.Prelude.{ℕ, String, Option, List}

abbrev pub Uuid : Type 0
Uuid = ℕ

abbrev pub DateTime : Type 0
DateTime = ℕ

pub data AuthenticationMethod : Type 0 where
  jwt web_session virtual_key : AuthenticationMethod

pub record Principal : Type 0 where
  pub principal_id : String
  pub tenant_id : String
  pub project_id : Option String
  pub user_id : Option String
  pub roles : List String
  pub scopes : List String
  pub authentication_method : AuthenticationMethod
  pub virtual_key_id : Option Uuid

pub record VirtualKeyRecord (Decimal : Type 0) : Type 0 where
  pub id : Uuid
  pub display_name : Option String
  pub lookup_prefix : String
  pub secret_hash : String
  pub tenant_id : String
  pub project_id : Option String
  pub user_id : Option String
  pub scopes : List String
  pub expires_at : Option DateTime
  pub revoked_at : Option DateTime
  pub daily_token_limit : ℕ
  pub allowed_models : List String
  pub daily_request_limit : Option ℕ
  pub monthly_budget : Option Decimal
