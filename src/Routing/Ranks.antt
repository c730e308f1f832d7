-- ===== src/Routing/Ranks.antt =====
-- The rank of a target, and the highest rank of a list (crates/gateway-routing/src/lib.rs).
use mathlib.Core.Path.{subst}
use tuenel.Prelude.{
  sym, ◌≡◌, refl, ◌⊎◌, String, Bool, true, false, not, ◌&&◌, ◌||◌, Option, none, some, List, [],
  ◌∷◌, ◌==◌, option_eq, string_eq, is_some, is_none, option_beq_iff, any, All, Bool-cases, inl, inr,
  arith,
}
use tuenel.Prelude.Int.{
  int_leb_refl, int_leb_trans, int_max_left, int_max_right, int_beq_refl, ℤ, int_max, int_leb,
  int_beq, is_negative,
}
use tuenel.Routing.{RouteTarget, rank, max_rank}

-- The caller of `tenant` and `project` may use the target: it is global, or it belongs to the
-- caller's tenant as a whole, or to the caller's project.
abbrev pub reaches : Option String → Option String → RouteTarget → Bool
reaches tenant project t =
    (is_none t.tenant_id && is_none t.project_id)
    || (t.tenant_id == tenant && is_some tenant && is_none t.project_id)
    || (t.tenant_id == tenant && t.project_id == project && is_some project)

pub is_negative-rank :
    (tenant project : Option String) (t : RouteTarget)
    → is_negative (rank tenant project t) ≡ not (reaches tenant project t)
unfolding rank
is_negative-rank tenant project t = ground arith

-- Of each owner that the target names, it is the caller's.
abbrev pub IsOwn : Option String → Option String → RouteTarget → Type 0
IsOwn tenant project t =
    ((t.tenant_id ≡ none) ⊎ (t.tenant_id ≡ tenant))
    × ((t.project_id ≡ none) ⊎ (t.project_id ≡ project))

is_none→none {ℓ} : {A : Type ℓ} (o : Option A) → is_none o ≡ true → o ≡ none
is_none→none none h = refl
is_none→none (some a) h = cc

pub reaches-IsOwn :
    (tenant project : Option String) (t : RouteTarget)
    → reaches tenant project t ≡ true
    → IsOwn tenant project t
reaches-IsOwn tenant project t h = ground (
  arith,
  is_none→none t.tenant_id,
  is_none→none t.project_id,
  option_beq_iff t.tenant_id tenant,
  option_beq_iff t.project_id project,
)

All-leb :
    (m n : ℤ) (rs : List ℤ)
    → int_leb m n ≡ true
    → All (λ r. int_leb r m ≡ true) rs
    → All (λ r. int_leb r n ≡ true) rs
All-leb m n [] h hs = tt
All-leb m n (r ∷ rs) h hs = (int_leb_trans r m n hs.0 h, All-leb m n rs h hs.1)

-- No rank of the list is above the highest.
pub max_rank_bound : (rs : List ℤ) → All (λ r. int_leb r (max_rank rs) ≡ true) rs
unfolding max_rank
max_rank_bound [] = tt
max_rank_bound (r ∷ []) = (int_leb_refl r, tt)
max_rank_bound (r ∷ s ∷ rs) = (
  int_max_left r (max_rank (s ∷ rs)),
  All-leb (max_rank (s ∷ rs)) (int_max r (max_rank (s ∷ rs))) (s ∷ rs)
      (int_max_right r (max_rank (s ∷ rs))) (max_rank_bound (s ∷ rs)),
)

pub is_negative-max_rank :
    (rs : List ℤ) → is_negative (max_rank rs) ≡ not (any (λ r. not (is_negative r)) rs)
unfolding max_rank
is_negative-max_rank [] = refl
is_negative-max_rank (r ∷ []) = ground arith
is_negative-max_rank (r ∷ s ∷ rs) = ground (arith, is_negative-max_rank (s ∷ rs))

any-int_max :
    (r m : ℤ) (rs : List ℤ)
    → any (λ s. int_beq s m) rs ≡ true
    → any (λ s. int_beq s (int_max r m)) (r ∷ rs) ≡ true
any-int_max r m rs h = elim (Bool-cases (int_leb r m)) [
  | inl e ↦
      let same : int_max r m ≡ m = ground arith in
      subst (λ (k : ℤ). any (λ s. int_beq s k) (r ∷ rs) ≡ true) (sym same) (ground (arith, h))
  | inr e ↦ rw e (ground (arith, int_beq_refl r))
]

-- A highest rank that is not negative occurs in the list.
pub max_rank-mem :
    (rs : List ℤ) → is_negative (max_rank rs) ≡ false → any (λ s. int_beq s (max_rank rs)) rs ≡ true
unfolding max_rank
max_rank-mem [] h = absurd (cc)
max_rank-mem (r ∷ rs) h = occurs r rs
  where
    occurs : (r : ℤ) (rs : List ℤ) → any (λ s. int_beq s (max_rank (r ∷ rs))) (r ∷ rs) ≡ true
    occurs r [] = ground (arith, int_beq_refl r)
    occurs r (s ∷ rs) = any-int_max r (max_rank (s ∷ rs)) (s ∷ rs) (occurs s rs)
