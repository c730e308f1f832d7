-- ===== src/Keys.antt =====
-- crates/gateway-keys/src/lib.rs: the issuance, the authentication and the revocation of virtual
-- keys. The random bytes, the salt and the new identifier are arguments; base64 and Argon2 are
-- parameters.
pub mod Text
pub mod Issued
use Prim.Native.Char.{Char, code}
use Prim.Native.String.{len, ◌++◌}
use mathlib.Core.List.{◌++◌ as append}
use tuenel.Prelude.{
  ℕ, String, Bool, true, false, ◌||◌, Option, none, some, List, [], map, Result, ok, err, Exec,
  map_err, ok_or, ◌>>=◌, ◌>>◌, lift, pure, raise, is_some, leb, if◌then◌else◌, nat_beq,
}
use tuenel.Types.Identity.{Uuid, DateTime, Principal, virtual_key, VirtualKeyRecord}
use tuenel.Store.Boundary.{GatewayStore, StoreError}
use tuenel.Keys.Text.{strip, split_at}

pub record NewVirtualKey (Decimal : Type 0) : Type 0 where
  pub tenant_id : String
  pub display_name : Option String
  pub project_id : Option String
  pub user_id : Option String
  pub scopes : List String
  pub expires_at : Option DateTime
  pub daily_token_limit : ℕ
  pub allowed_models : List String
  pub daily_request_limit : Option ℕ
  pub monthly_budget : Option Decimal

pub record IssuedVirtualKey (Decimal : Type 0) : Type 0 where
  pub key_record : VirtualKeyRecord Decimal
  pub plaintext : String

pub data KeyError : Type 0 where
  invalid hashing store_failed : KeyError

-- What is drawn for a new key.
pub record KeyDraws : Type 0 where
  pub prefix_bytes : List ℕ
  pub secret_bytes : List ℕ
  pub salt : String
  pub key_id : Uuid

-- `URL_SAFE_NO_PAD.encode`, `hash_password` with its `to_string`, and `PasswordHash::new` with
-- `verify_password`.
pub record KeyCrypto : Type 0 where
  pub encode : List ℕ → String
  pub hash_password : String → String → Option String
  pub verify_password : String → String → Bool
  pub uuid_text : Uuid → String

-- The secret behind an underscore.
unfoldable pub secret_of : String → Result KeyError String
secret_of rest = elim (strip "_" rest) [
  | none ↦ err invalid
  | some secret ↦ if leb 32 (len secret) then ok secret else err invalid
]

-- The prefix and the secret of what follows `vk_live_`.
unfoldable pub parse_parts : Option (String × String) → Result KeyError (String × String)
parse_parts none = err invalid
parse_parts (some (prefix, rest)) = elim (secret_of rest) [
  | err e ↦ err e
  | ok secret ↦ ok (prefix, secret)
]

unfoldable pub parse_key : String → Result KeyError (String × String)
parse_key key = elim (strip "vk_live_" key) [
  | none ↦ err invalid
  | some remainder ↦ parse_parts (split_at 12 remainder)
]

unfoldable pub plaintext_of : String → String → String
plaintext_of prefix secret = "vk_live_" ++ (prefix ++ ("_" ++ secret))

-- `expires_at.is_some_and(|time| time <= now)`
abbrev pub is_over : Option DateTime → DateTime → Bool
is_over none now = false
is_over (some time) now = leb time now

module _ {Decimal S : Type 0} (c : KeyCrypto) (store : GatewayStore Decimal S) where
  abbrev pub new_record : KeyDraws → NewVirtualKey Decimal → String → VirtualKeyRecord Decimal
  new_record draws input secret_hash = record {
    id = draws.key_id;
    display_name = input.display_name;
    lookup_prefix = c.encode draws.prefix_bytes;
    secret_hash = secret_hash;
    tenant_id = input.tenant_id;
    project_id = input.project_id;
    user_id = input.user_id;
    scopes = input.scopes;
    expires_at = input.expires_at;
    revoked_at = none;
    daily_token_limit = input.daily_token_limit;
    allowed_models = input.allowed_models;
    daily_request_limit = input.daily_request_limit;
    monthly_budget = input.monthly_budget;
  }

  abbrev pub on_key_store : {A : Type 0} → Exec S StoreError A → Exec S KeyError A
  on_key_store m s = let (r, t) = m s in (map_err (λ _. store_failed) r, t)

  unfoldable pub issue :
      KeyDraws → NewVirtualKey Decimal → Exec S KeyError (IssuedVirtualKey Decimal)
  issue draws input = do
    hash ← lift (ok_or (c.hash_password (c.encode draws.secret_bytes) draws.salt) hashing)
    on_key_store (store.insert_virtual_key (new_record draws input hash))
    pure (record {
      key_record = new_record draws input hash;
      plaintext = plaintext_of (c.encode draws.prefix_bytes) (c.encode draws.secret_bytes);
    })

  -- The principal that a key stands for.
  unfoldable pub principal_of : VirtualKeyRecord Decimal → Principal
  principal_of r = record {
    principal_id = "virtual-key:" ++ c.uuid_text r.id;
    tenant_id = r.tenant_id;
    project_id = r.project_id;
    user_id = r.user_id;
    roles = [];
    scopes = append r.scopes (map (λ model. "model:" ++ model) r.allowed_models);
    authentication_method = virtual_key;
    virtual_key_id = some r.id;
  }

  -- The tests of a key that was found.
  unfoldable pub accepts : DateTime → String → VirtualKeyRecord Decimal → Bool
  accepts now secret r =
      if is_some r.revoked_at || is_over r.expires_at now
      then false
      else c.verify_password secret r.secret_hash

  unfoldable pub authenticate : DateTime → String → Exec S KeyError Principal
  authenticate now presented = do
    parts ← lift (parse_key presented)
    found ← on_key_store (store.find_virtual_key_by_prefix parts.0)
    r ← lift (ok_or found invalid)
    lift (if accepts now parts.1 r then ok tt else err invalid)
    on_key_store (store.touch_virtual_key r.id)
    pure (principal_of r)

  unfoldable pub revoke_key : DateTime → String → Option String → Uuid → Exec S KeyError Bool
  revoke_key now tenant_id project_id key_id =
      on_key_store (store.revoke_virtual_key now tenant_id project_id key_id)
