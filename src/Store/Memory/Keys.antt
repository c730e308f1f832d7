-- ===== src/Store/Memory/Keys.antt =====
-- Virtual keys in the in-memory store (stores/store-memory/src/lib.rs).
use tuenel.Prelude.{
  ◌≡◌, ◌⊎◌, ◌↔◌, refl, String, Bool, true, false, ◌&&◌, Option, none, some, [], ◌∷◌, ok, ◌==◌,
  nat_eq, string_eq, option_eq, Bool-cases, Option-cases, inl, inr, any, is_some, arith,
}
use tuenel.Prelude.Maps.{HashMap, get, values}
use tuenel.Types.Identity.{Uuid, DateTime, VirtualKeyRecord}
use tuenel.Store.Memory.{State, is_revocable, revoke, update_first, revoke_virtual_key}

module _ {Decimal : Type 0} where
  get-update_first :
      (p : VirtualKeyRecord Decimal → Bool)
      (f : VirtualKeyRecord Decimal → VirtualKeyRecord Decimal)
      (m m' : HashMap String (VirtualKeyRecord Decimal)) (k : String) (v : VirtualKeyRecord Decimal)
      → update_first p f m ≡ some m'
      → get m' k ≡ some v
      → (u : VirtualKeyRecord Decimal) × (get m k ≡ some u) × ((v ≡ u) ⊎ ((p u ≡ true) × (v ≡ f u)))
  unfolding update_first get
  get-update_first p f [] m' k v h g = absurd (cc)
  get-update_first p f ((j, w) ∷ m) m' k v h g =
      split (λ m'' e g'. get-update_first p f m m'' k v e g') (Bool-cases (p w))
        (Option-cases (update_first p f m)) (Bool-cases (j == k))
    where
      split :
          ((m'' : HashMap String (VirtualKeyRecord Decimal))
            → update_first p f m ≡ some m''
            → get m'' k ≡ some v
            → (u : VirtualKeyRecord Decimal) × (get m k ≡ some u)
              × ((v ≡ u) ⊎ ((p u ≡ true) × (v ≡ f u))))
          → (p w ≡ true) ⊎ (p w ≡ false)
          → (update_first p f m ≡ none)
            ⊎ ((m'' : HashMap String (VirtualKeyRecord Decimal)) × (update_first p f m ≡ some m''))
          → ((j == k) ≡ true) ⊎ ((j == k) ≡ false)
          → (u : VirtualKeyRecord Decimal) × (get ((j, w) ∷ m) k ≡ some u)
            × ((v ≡ u) ⊎ ((p u ≡ true) × (v ≡ f u)))
      split ih (inl a) _ (inl b) = (w, ground arith, inr (a, ground arith))
      split ih (inl a) _ (inr b) = (v, ground arith, inl refl)
      split ih (inr a) (inl n) b = absurd (ground arith)
      split ih (inr a) (inr (m'', e)) (inl b) = (w, ground arith, inl (ground arith))
      split ih (inr a) (inr (m'', e)) (inr b) =
          let (u, q, c) = ih m'' e (ground arith) in (u, ground arith, c)

  update_first-none :
      (p : VirtualKeyRecord Decimal → Bool)
      (f : VirtualKeyRecord Decimal → VirtualKeyRecord Decimal)
      (m : HashMap String (VirtualKeyRecord Decimal))
      → (update_first p f m ≡ none) ↔ (any p (values m) ≡ false)
  unfolding update_first values
  update_first-none p f [] = ground arith
  update_first-none p f ((j, w) ∷ m) = ground (arith, update_first-none p f m)

  -- A revocation reports `false` exactly when no key has the id, the tenant and, if one is given,
  -- the project; the keys then stay as they are.
  pub revoke_virtual_key-false :
      (now : DateTime) (tenant : String) (project : Option String) (id : Uuid) (s : State Decimal)
      → (revoke_virtual_key now tenant project id s ≡ (ok false, s))
        ↔ (any (is_revocable tenant project id) (values s.keys) ≡ false)
  unfolding revoke_virtual_key
  revoke_virtual_key-false now tenant project id s =
      ground (arith, update_first-none (is_revocable tenant project id) (revoke now) s.keys)

  update_first-any :
      (p q : VirtualKeyRecord Decimal → Bool)
      (f : VirtualKeyRecord Decimal → VirtualKeyRecord Decimal)
      (m m' : HashMap String (VirtualKeyRecord Decimal))
      → ((v : VirtualKeyRecord Decimal) → p v ≡ true → q (f v) ≡ true)
      → update_first p f m ≡ some m'
      → any q (values m') ≡ true
  unfolding update_first values
  update_first-any p q f [] m' hq h = absurd (cc)
  update_first-any p q f ((j, w) ∷ m) m' hq h =
      split (λ m'' e. update_first-any p q f m m'' hq e) (Bool-cases (p w))
        (Option-cases (update_first p f m))
    where
      split :
          ((m'' : HashMap String (VirtualKeyRecord Decimal))
            → update_first p f m ≡ some m''
            → any q (values m'') ≡ true)
          → (p w ≡ true) ⊎ (p w ≡ false)
          → (update_first p f m ≡ none)
            ⊎ ((m'' : HashMap String (VirtualKeyRecord Decimal)) × (update_first p f m ≡ some m''))
          → any q (values m') ≡ true
      split ih (inl a) _ = ground (arith, hq w a)
      split ih (inr a) (inl n) = absurd (ground arith)
      split ih (inr a) (inr (m'', e)) = ground (arith, ih m'' e)

  -- A revocation that reports `true` leaves a revoked key of the id, the tenant and, if one is
  -- given, the project.
  pub revoke_virtual_key-true :
      (now : DateTime) (tenant : String) (project : Option String) (id : Uuid)
      (s s' : State Decimal)
      → revoke_virtual_key now tenant project id s ≡ (ok true, s')
      → any (λ k. is_revocable tenant project id k && is_some k.revoked_at) (values s'.keys) ≡ true
  unfolding revoke_virtual_key
  revoke_virtual_key-true now tenant project id s s' h =
      elim (Option-cases (update_first (is_revocable tenant project id) (revoke now) s.keys)) [
        | inl n ↦ absurd (ground arith)
        | inr found ↦
            let m : HashMap String (VirtualKeyRecord Decimal) = found.0 in
            ground (
              arith,
              update_first-any (is_revocable tenant project id)
                  (λ k. is_revocable tenant project id k && is_some k.revoked_at) (revoke now)
                  s.keys m (keeps tenant project id now) found.1,
            )
      ]
    where
      keeps :
          (tenant : String) (project : Option String) (id : Uuid) (now : DateTime)
          (v : VirtualKeyRecord Decimal)
          → is_revocable tenant project id v ≡ true
          → (is_revocable tenant project id (revoke now v) && is_some (revoke now v).revoked_at)
            ≡ true
      keeps tenant none id now v e = unfold is_revocable in ground arith
      keeps tenant (some p) id now v e = unfold is_revocable in ground arith

  -- A revocation touches no key but one with the id, the tenant and, if one is given, the project;
  -- that key keeps everything but its revocation time, which stays if there was one and is `now`
  -- otherwise.
  pub revoke_virtual_key-get :
      (now : DateTime) (tenant : String) (project : Option String) (id : Uuid)
      (s s' : State Decimal) (prefix : String) (v : VirtualKeyRecord Decimal)
      → revoke_virtual_key now tenant project id s ≡ (ok true, s')
      → get s'.keys prefix ≡ some v
      → (u : VirtualKeyRecord Decimal) × (get s.keys prefix ≡ some u)
        × ((v ≡ u) ⊎ ((is_revocable tenant project id u ≡ true) × (v ≡ revoke now u)))
  unfolding revoke_virtual_key
  revoke_virtual_key-get now tenant project id s s' prefix v h g =
      elim (Option-cases (update_first (is_revocable tenant project id) (revoke now) s.keys)) [
        | inl n ↦ absurd (ground arith)
        | inr found ↦
            let m : HashMap String (VirtualKeyRecord Decimal) = found.0 in
            get-update_first (is_revocable tenant project id) (revoke now) s.keys m prefix v found.1
              (ground (arith, found.1))
      ]
