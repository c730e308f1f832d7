-- ===== src/Tests/Keys.antt =====
-- The theorems on virtual keys, at a password that is its own hash.
use tuenel.Prelude.{
  nat_eq, ℕ, String, ◌≡◌, refl, true, false, none, some, [], ◌∷◌, ok, arith, string_eq, ◌==◌,
  is_empty, if◌then◌else◌, beq_refl,
}
use tuenel.Types.Identity.{VirtualKeyRecord}
use tuenel.Store.Memory.{memory_store, insert_virtual_key, find_virtual_key_by_prefix}
use tuenel.Keys.{
  KeyCrypto, KeyDraws, NewVirtualKey, IssuedVirtualKey, issue, authenticate, principal_of,
  new_record, plaintext_of, parse_key, is_over,
}
use tuenel.Keys.Issued.{authenticate-issue, authenticate-accepts}
use tuenel.Prelude.Maps.{contains_key}
use tuenel.Tests.Data.{calendar, store}

abbrev crypto : KeyCrypto
crypto = record {
  encode = λ bytes. if is_empty bytes then "abcdefghijkl" else "abcdefghijklmnopqrstuvwxyz123456";
  hash_password = λ secret _. some secret;
  verify_password = λ secret hash. secret == hash;
  uuid_text = λ _. "id";
}

abbrev draws : KeyDraws
draws = record { prefix_bytes = []; secret_bytes = 1 ∷ []; salt = "salt"; key_id = 3 }

abbrev input : NewVirtualKey ℕ
input = record {
  tenant_id = "acme";
  display_name = none;
  project_id = none;
  user_id = none;
  scopes = "chat" ∷ [];
  expires_at = some 60;
  daily_token_limit = 50;
  allowed_models = "fast" ∷ [];
  daily_request_limit = none;
  monthly_budget = none;
}

abbrev issued : IssuedVirtualKey ℕ
issued = record {
  key_record =
      new_record crypto (memory_store calendar (λ _. "id")) draws input
        "abcdefghijklmnopqrstuvwxyz123456";
  plaintext = "vk_live_abcdefghijkl_abcdefghijklmnopqrstuvwxyz123456";
}

authenticate-issue_example :
    (authenticate crypto
      (memory_store calendar (λ _. "id"))
      5
      issued.plaintext
      (issue crypto (memory_store calendar (λ _. "id")) draws input store).1).0
    ≡ ok (principal_of crypto (memory_store calendar (λ _. "id")) issued.key_record)
unfolding issue memory_store insert_virtual_key contains_key plaintext_of
authenticate-issue_example =
    authenticate-issue crypto calendar (λ _. "id")
      (λ secret salt hash h. ground (arith, h, beq_refl {A = String} secret)) draws input 5 store
      issued refl (omega arith) refl refl

authenticate-accepts_example :
    (parts : String × String) × (r : VirtualKeyRecord ℕ) × (parse_key issued.plaintext ≡ ok parts)
    × ((find_virtual_key_by_prefix parts.0
          (issue crypto (memory_store calendar (λ _. "id")) draws input store).1).0
        ≡ ok (some r))
    × (r.revoked_at ≡ none)
    × (is_over r.expires_at 5 ≡ false)
    × (crypto.verify_password parts.1 r.secret_hash ≡ true)
    × (principal_of crypto (memory_store calendar (λ _. "id")) issued.key_record
        ≡ principal_of crypto (memory_store calendar (λ _. "id")) r)
unfolding memory_store
authenticate-accepts_example =
    authenticate-accepts crypto (memory_store calendar (λ _. "id")) 5 issued.plaintext
      (issue crypto (memory_store calendar (λ _. "id")) draws input store).1
      (principal_of crypto (memory_store calendar (λ _. "id")) issued.key_record)
      (authenticate-issue crypto calendar (λ _. "id")
        (λ secret salt hash h. ground (arith, h, beq_refl {A = String} secret)) draws input 5 store
        issued refl (omega arith) refl
        (unfold issue memory_store insert_virtual_key contains_key plaintext_of in refl))
