-- ===== src/Policy/Hierarchy.antt =====
-- What the resolved policy of a hierarchy says of each of its levels
-- (crates/gateway-policy/src/lib.rs, `resolve_hierarchy`).
use mathlib.Core.List.{foldl}
use tuenel.Prelude.{
  ℕ, String, ◌≡◌, refl, false, Option, List, [], ◌∷◌, ok, contains, contains-append, arith, All,
  string_eq,
}
use tuenel.Policy.{
  Policy, default, authorize, exceeds, allows_model, allows_operation, restrict_with, levels,
  resolve_hierarchy,
}
use tuenel.Policy.Restrict.{exceeds-min_opt, authorize-restrict_with_le}

-- A request for `model` with `n` output tokens keeps to the denials and the limit of `p`.
abbrev pub Respects : String → ℕ → Policy → Type 0
Respects model n p =
    (contains p.denied_models model ≡ false) × (exceeds p.max_output_tokens n ≡ false)

module _ (model : String) (n : ℕ) where
  Respects-restrict_with :
      (p child : Policy)
      → Respects model n (restrict_with p child)
      → Respects model n p × Respects model n child
  unfolding restrict_with
  Respects-restrict_with p child h = ground (
    arith,
    contains-append p.denied_models child.denied_models model,
    exceeds-min_opt p.max_output_tokens child.max_output_tokens n,
  )

  Respects-foldl :
      (acc : Policy) (ps : List Policy)
      → Respects model n (foldl restrict_with acc ps)
      → Respects model n acc × All (Respects model n) ps
  Respects-foldl acc [] h = (h, tt)
  Respects-foldl acc (p ∷ ps) h =
      let ih = Respects-foldl (restrict_with acc p) ps h in
      let here = Respects-restrict_with acc p ih.0 in (here.0, (here.1, ih.1))

authorize-Respects :
    (p : Policy) (model operation : String) (n : ℕ)
    → authorize p model operation n ≡ ok tt
    → Respects model n p
unfolding authorize allows_model
authorize-Respects p model operation n h = ground arith

-- What the resolved policy authorizes is denied by name at no level, and exceeds the output-token
-- limit of no level.
pub resolve_hierarchy-Respects :
    (global tenant : Policy) (project principal key : Option Policy) (model operation : String)
    (n : ℕ)
    → authorize (resolve_hierarchy global tenant project principal key) model operation n ≡ ok tt
    → All (Respects model n) (levels global tenant project principal key)
unfolding resolve_hierarchy
resolve_hierarchy-Respects global tenant project principal key model operation n h =
    (Respects-foldl model n default (levels global tenant project principal key) (
      authorize-Respects (resolve_hierarchy global tenant project principal key) model operation n
        h)).1

authorize-default : (model operation : String) (n : ℕ) → authorize default model operation n ≡ ok tt
unfolding authorize allows_model allows_operation
authorize-default model operation n = refl

authorize-foldl :
    (model operation : String) (n : ℕ) (acc : Policy) (ps : List Policy)
    → authorize acc model operation n ≡ ok tt
    → All (λ p. authorize p model operation n ≡ ok tt) ps
    → authorize (foldl restrict_with acc ps) model operation n ≡ ok tt
authorize-foldl model operation n acc [] h hs = h
authorize-foldl model operation n acc (p ∷ ps) h hs =
    authorize-foldl model operation n (restrict_with acc p) ps
      (authorize-restrict_with_le acc p model operation n h hs.0) hs.1

-- What every level authorizes, the resolved policy authorizes.
pub resolve_hierarchy-authorize :
    (global tenant : Policy) (project principal key : Option Policy) (model operation : String)
    (n : ℕ)
    → All (λ p. authorize p model operation n ≡ ok tt) (levels global tenant project principal key)
    → authorize (resolve_hierarchy global tenant project principal key) model operation n ≡ ok tt
unfolding resolve_hierarchy
resolve_hierarchy-authorize global tenant project principal key model operation n hs =
    authorize-foldl model operation n default (levels global tenant project principal key)
      (authorize-default model operation n) hs
