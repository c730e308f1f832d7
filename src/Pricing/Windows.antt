-- ===== src/Pricing/Windows.antt =====
-- What the overlap check says of the prices that are active at an instant
-- (crates/gateway-pricing/src/lib.rs).
use Prim.Native.Nat.{max}
use tuenel.Prelude.{
  ◌≡◌, refl, String, Bool, true, false, ◌&&◌, List, [], ◌∷◌, ok, err, ◌==◌, string_eq, eq_iff, any,
  all, ◌||◌, Bool-cases, inl, inr, arith,
}
use tuenel.Types.Identity.{DateTime}
use tuenel.Pricing.{
  ModelPrice, active_at, overlaps, validate_no_overlap, overlapping_windows, before_end,
}

module _ {Decimal : Type 0} where
  -- A price for this model of this provider that is active at `at`.
  abbrev pub applies : String → String → DateTime → ModelPrice Decimal → Bool
  applies provider model at p =
      p.provider_id == provider && p.upstream_model == model && active_at p at

  -- Two prices of the list, at two places, pass the test.
  abbrev pub twice : (ModelPrice Decimal → Bool) → List (ModelPrice Decimal) → Bool
  twice q [] = false
  twice q (p ∷ ps) = (q p && any q ps) || twice q ps

  overlaps-applies :
      (provider model : String) (at : DateTime) (p r : ModelPrice Decimal)
      → applies provider model at p ≡ true
      → applies provider model at r ≡ true
      → overlaps p r ≡ true
  unfolding active_at overlaps
  overlaps-applies provider model at p r h k = ground (
    arith,
    eq_iff p.provider_id provider,
    eq_iff r.provider_id provider,
    eq_iff p.upstream_model model,
    eq_iff r.upstream_model model,
    eq_iff p.provider_id r.provider_id,
    eq_iff p.upstream_model r.upstream_model,
  )

  any-applies :
      (provider model : String) (at : DateTime) (p : ModelPrice Decimal)
      (ps : List (ModelPrice Decimal))
      → any (overlaps p) ps ≡ false
      → applies provider model at p ≡ true
      → any (applies provider model at) ps ≡ false
  any-applies provider model at p [] h k = refl
  any-applies provider model at p (r ∷ ps) h k =
      ground (arith, overlaps-applies provider model at p r k, any-applies provider model at p ps)

  -- In a list of prices that passes the check, no two prices apply to one model of one provider
  -- at one instant.
  pub validate_no_overlap-twice :
      (prices : List (ModelPrice Decimal)) (provider model : String) (at : DateTime)
      → validate_no_overlap prices ≡ ok tt
      → twice (applies provider model at) prices ≡ false
  unfolding validate_no_overlap
  validate_no_overlap-twice [] provider model at h = refl
  validate_no_overlap-twice (p ∷ ps) provider model at h =
      ground
        (arith, any-applies provider model at p ps, validate_no_overlap-twice ps provider model at)

  -- A window that holds some instant.
  abbrev pub is_open : ModelPrice Decimal → Bool
  is_open p = before_end p.effective_until p.effective_from

  overlaps-active :
      (p r : ModelPrice Decimal)
      → is_open p ≡ true
      → is_open r ≡ true
      → overlaps p r ≡ true
      → (applies p.provider_id p.upstream_model (max p.effective_from r.effective_from) p ≡ true)
        × (applies p.provider_id p.upstream_model (max p.effective_from r.effective_from) r ≡ true)
  unfolding active_at overlaps
  overlaps-active p r hp hr h = ground (
    arith,
    eq_iff p.provider_id p.provider_id,
    eq_iff p.upstream_model p.upstream_model,
    eq_iff r.provider_id p.provider_id,
    eq_iff r.upstream_model p.upstream_model,
    eq_iff p.provider_id r.provider_id,
    eq_iff p.upstream_model r.upstream_model,
  )

  any-overlaps :
      (p : ModelPrice Decimal) (ps : List (ModelPrice Decimal))
      → is_open p ≡ true
      → all is_open ps ≡ true
      → any (overlaps p) ps ≡ true
      → (at : DateTime) × (applies p.provider_id p.upstream_model at p ≡ true)
        × (any (applies p.provider_id p.upstream_model at) ps ≡ true)
  any-overlaps p [] hp hs h = absurd (cc)
  any-overlaps p (r ∷ ps) hp hs h = elim (Bool-cases (overlaps p r)) [
    | inl e ↦
        let both = overlaps-active p r hp (ground (arith, hs)) e in
        (max p.effective_from r.effective_from, both.0, ground (arith, both.1))
    | inr e ↦
        let (at, here, there) = any-overlaps p ps hp (ground (arith, hs)) (ground (arith, e, h)) in
        (at, here, ground (arith, there))
  ]

  -- Where every window holds some instant, a list that fails the check has two prices that apply
  -- to one model of one provider at one instant.
  pub validate_no_overlap-err :
      (prices : List (ModelPrice Decimal))
      → all is_open prices ≡ true
      → validate_no_overlap prices ≡ err overlapping_windows
      → (provider model : String) × (at : DateTime) × (twice (applies provider model at) prices
          ≡ true)
  unfolding validate_no_overlap
  validate_no_overlap-err [] hs h = absurd (cc)
  validate_no_overlap-err (p ∷ ps) hs h = elim (Bool-cases (any (overlaps p) ps)) [
    | inl e ↦
        let (at, here, there) = any-overlaps p ps (ground (arith, hs)) (ground (arith, hs)) e in
        (p.provider_id, p.upstream_model, at, ground (arith, here, there))
    | inr e ↦
        let (provider, model, at, t) =
          validate_no_overlap-err ps (ground (arith, hs)) (ground (arith, e, h)) in
        (provider, model, at, ground (arith, t))
  ]
