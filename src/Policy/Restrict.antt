-- ===== src/Policy/Restrict.antt =====
-- What a restricted policy permits, against what its two parts permit
-- (crates/gateway-policy/src/lib.rs).
use tuenel.Prelude.{
  ℕ, String, ◌≡◌, ◌↔◌, refl, Bool, true, false, not, ◌&&◌, ◌||◌, Option, none, some, List, [], ◌∷◌,
  ok, is_empty, contains, contains-append, contains-filter, arith, string_eq,
}
use tuenel.Policy.{
  Policy, allows_model, allows_operation, authorize, min_opt, exceeds, intersect_allowlists,
  restrict_with,
}

-- What an allowlist lets through: an empty list lets everything through.
abbrev pub admits : List String → String → Bool
admits xs a = is_empty xs || contains xs a

-- Two allowlists that do not cancel out: one is empty, or they share an item.
abbrev pub overlap : List String → List String → Bool
overlap xs ys = is_empty xs || is_empty ys || not (is_empty (intersect_allowlists xs ys))

admits-intersect :
    (xs ys : List String) (a : String)
    → overlap xs ys ≡ true
    → admits (intersect_allowlists xs ys) a ≡ (admits xs a && admits ys a)
unfolding intersect_allowlists
admits-intersect [] [] a h = refl
admits-intersect [] (y ∷ ys) a h = refl
admits-intersect (x ∷ xs) [] a h = ground arith
admits-intersect (x ∷ xs) (y ∷ ys) a h =
    ground (arith, contains-filter (λ item. contains (y ∷ ys) item) (x ∷ xs) a)

admits-intersect_le :
    (xs ys : List String) (a : String)
    → (admits xs a && admits ys a) ≡ true
    → admits (intersect_allowlists xs ys) a ≡ true
unfolding intersect_allowlists
admits-intersect_le [] [] a h = refl
admits-intersect_le [] (y ∷ ys) a h = h
admits-intersect_le (x ∷ xs) [] a h = ground arith
admits-intersect_le (x ∷ xs) (y ∷ ys) a h =
    ground (arith, contains-filter (λ item. contains (y ∷ ys) item) (x ∷ xs) a)

-- If the model allowlists of the two policies do not cancel out (one is empty or they share a
-- model), the restricted policy allows exactly the models that both allow.
pub allows_model-restrict_with :
    (p child : Policy) (model : String)
    → overlap p.allowed_models child.allowed_models ≡ true
    → allows_model (restrict_with p child) model
      ≡ (allows_model p model && allows_model child model)
unfolding allows_model restrict_with
allows_model-restrict_with p child model h = ground (
  arith,
  contains-append p.denied_models child.denied_models model,
  admits-intersect p.allowed_models child.allowed_models model h,
)

-- The same for operations.
pub allows_operation-restrict_with :
    (p child : Policy) (operation : String)
    → overlap p.allowed_operations child.allowed_operations ≡ true
    → allows_operation (restrict_with p child) operation
      ≡ (allows_operation p operation && allows_operation child operation)
unfolding allows_operation restrict_with
allows_operation-restrict_with p child operation h =
    admits-intersect p.allowed_operations child.allowed_operations operation h

pub exceeds-min_opt :
    (a b : Option ℕ) (n : ℕ) → exceeds (min_opt a b) n ≡ (exceeds a n || exceeds b n)
unfolding min_opt
exceeds-min_opt none b n = refl
exceeds-min_opt (some a) none n = ground arith
exceeds-min_opt (some a) (some b) n = ground arith

-- If neither the model nor the operation allowlists cancel out, the restricted policy authorizes
-- a request exactly when the parent and the child both do.
pub authorize-restrict_with :
    (p child : Policy) (model operation : String) (n : ℕ)
    → overlap p.allowed_models child.allowed_models ≡ true
    → overlap p.allowed_operations child.allowed_operations ≡ true
    → (authorize (restrict_with p child) model operation n ≡ ok tt)
      ↔ ((authorize p model operation n ≡ ok tt) × (authorize child model operation n ≡ ok tt))
unfolding authorize
authorize-restrict_with p child model operation n hm ho = ground (
  arith,
  allows_model-restrict_with p child model hm,
  allows_operation-restrict_with p child operation ho,
  max_tokens,
)
  where
    max_tokens :
        exceeds (restrict_with p child).max_output_tokens n
        ≡ (exceeds p.max_output_tokens n || exceeds child.max_output_tokens n)
    max_tokens =
        unfold restrict_with in exceeds-min_opt p.max_output_tokens child.max_output_tokens n

-- What both policies authorize, the restricted policy authorizes, whatever their allowlists.
pub authorize-restrict_with_le :
    (p child : Policy) (model operation : String) (n : ℕ)
    → authorize p model operation n ≡ ok tt
    → authorize child model operation n ≡ ok tt
    → authorize (restrict_with p child) model operation n ≡ ok tt
unfolding authorize restrict_with allows_model allows_operation
authorize-restrict_with_le p child model operation n hp hc = ground (
  arith,
  contains-append p.denied_models child.denied_models model,
  admits-intersect_le p.allowed_models child.allowed_models model,
  admits-intersect_le p.allowed_operations child.allowed_operations operation,
  exceeds-min_opt p.max_output_tokens child.max_output_tokens n,
)

-- If both policies have a model allowlist and the two lists share nothing, the restricted policy
-- allows every model that neither of them denies by name, those on neither allowlist included.
pub restrict_with_disjoint :
    (p child : Policy) (model : String)
    → overlap p.allowed_models child.allowed_models ≡ false
    → allows_model (restrict_with p child) model
      ≡ not (contains p.denied_models model || contains child.denied_models model)
unfolding allows_model restrict_with
restrict_with_disjoint p child model h =
    ground (arith, contains-append p.denied_models child.denied_models model)
