-- ===== src/Keys/Issued.antt =====
-- What the authentication of a virtual key accepts (crates/gateway-keys/src/lib.rs).
use Prim.Native.String.{len, ◌++◌}
use tuenel.Prelude.{
  ℕ, String, ◌≡◌, sym, ap, ◌∙◌, ◌≤◌, true, false, none, some, ok, arith, Option-cases, Result-cases,
  inl, inr, nat_eq, string_eq,
}
use tuenel.Prelude.Maps.{get-insert}
use tuenel.Types.Identity.{DateTime, Principal, VirtualKeyRecord}
use tuenel.Store.Boundary.{GatewayStore}
use tuenel.Store.Memory.{
  Calendar, State, memory_store, insert_virtual_key, find_virtual_key_by_prefix,
}
use tuenel.Keys.Text.{strip-append, split_at, split_at-append}
use tuenel.Keys.{
  KeyCrypto, KeyDraws, NewVirtualKey, IssuedVirtualKey, parse_key, parse_parts, secret_of,
  plaintext_of, is_over, issue, accepts, authenticate, principal_of, new_record,
}

-- A key in the format of an issued one is taken apart into its prefix and its secret.
parse_key-plaintext_of :
    (prefix secret : String)
    → len prefix ≡ 12
    → 32 ≤ len secret
    → parse_key (plaintext_of prefix secret) ≡ ok (prefix, secret)
unfolding parse_key plaintext_of parse_parts secret_of
parse_key-plaintext_of prefix secret twelve long =
    let tail : String = "_" ++ secret in
    let cut : split_at 12 (prefix ++ tail) ≡ some (prefix, tail) =
      ap (λ n. split_at n (prefix ++ tail)) (sym twelve) ∙ split_at-append prefix tail in
    ground (arith, strip-append "vk_live_" (prefix ++ tail), cut, strip-append "_" secret, long)

module _ {Decimal : Type 0} (k : KeyCrypto) (calendar : Calendar) (uuid_text : ℕ → String)
    (verifies : (secret salt hash : String)
      → k.hash_password secret salt ≡ some hash
      → k.verify_password secret hash ≡ true) where
  -- Over the in-memory store, if a password verifies against each of its hashes, and the encodings
  -- of the random bytes have 12 and at least 32 bytes, then the plaintext of a key that was issued
  -- authenticates at any time before the key expires, as the principal of the record.
  pub authenticate-issue :
      (draws : KeyDraws) (input : NewVirtualKey Decimal) (now : DateTime) (s : State Decimal)
      (issued : IssuedVirtualKey Decimal)
      → len (k.encode draws.prefix_bytes) ≡ 12
      → 32 ≤ len (k.encode draws.secret_bytes)
      → is_over input.expires_at now ≡ false
      → (issue k (memory_store calendar uuid_text) draws input s).0 ≡ ok issued
      → (authenticate k
          (memory_store calendar uuid_text)
          now
          issued.plaintext
          (issue k (memory_store calendar uuid_text) draws input s).1).0
        ≡ ok (principal_of k (memory_store calendar uuid_text) issued.key_record)
  unfolding issue authenticate accepts memory_store insert_virtual_key find_virtual_key_by_prefix
  authenticate-issue draws input now s issued twelve long alive h =
      let prefix = k.encode draws.prefix_bytes in
      let secret = k.encode draws.secret_bytes in
      elim (Option-cases (k.hash_password secret draws.salt)) [
        | inl bad ↦ absurd (ground (arith, bad, h))
        | inr hash ↦
            let r = new_record k (memory_store calendar uuid_text) draws input hash.0 in
            ground (
              arith,
              hash.1,
              h,
              alive,
              parse_key-plaintext_of prefix secret twelve long,
              get-insert s.keys prefix r prefix,
              string_eq.beq_iff prefix prefix,
              verifies secret draws.salt hash.0 hash.1,
            )
      ]

module _ {Decimal S : Type 0} (k : KeyCrypto) (store : GatewayStore Decimal S) where
  -- A presented key authenticates only if it has the format of a key, the store has a record under
  -- its prefix, the record is neither revoked nor expired, and the secret verifies against its
  -- hash; the principal is then that of the record.
  pub authenticate-accepts :
      (now : DateTime) (presented : String) (s : S) (p : Principal)
      → (authenticate k store now presented s).0 ≡ ok p
      → (parts : String × String) × (r : VirtualKeyRecord Decimal) × (parse_key presented
          ≡ ok parts)
        × ((store.find_virtual_key_by_prefix parts.0 s).0 ≡ ok (some r))
        × (r.revoked_at ≡ none)
        × (is_over r.expires_at now ≡ false)
        × (k.verify_password parts.1 r.secret_hash ≡ true)
        × (p ≡ principal_of k store r)
  unfolding authenticate accepts
  authenticate-accepts now presented s p h = elim (Result-cases (parse_key presented)) [
    | inr bad ↦ absurd (ground (arith, bad.1, h))
    | inl parts ↦ elim (Result-cases (store.find_virtual_key_by_prefix parts.0.0 s).0) [
      | inr bad ↦ absurd (ground (arith, parts.1, bad.1, h))
      | inl found ↦ elim (Option-cases found.0) [
        | inl missing ↦ absurd (ground (arith, parts.1, found.1, missing, h))
        | inr r ↦ (
          parts.0,
          r.0,
          parts.1,
          found.1 ∙ ap ok r.1,
          ground (arith, parts.1, found.1, r.1, h),
          ground (arith, parts.1, found.1, r.1, h),
          ground (arith, parts.1, found.1, r.1, h),
          ground (arith, parts.1, found.1, r.1, h),
        )
      ]
    ]
  ]
