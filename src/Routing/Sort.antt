-- ===== src/Routing/Sort.antt =====
-- The order of a plan's targets (crates/gateway-routing/src/lib.rs, `RoutePlan::new`).
use mathlib.Core.List.{Perm}
use mathlib.Core.List.Perm
use tuenel.Prelude.{
  ℕ, ◌≤◌, ◌≡◌, refl, ◌∙◌, ap, inl, inr, List, [], ◌∷◌, ok, leb, Bool-cases, arith, All, filter,
  if◌then◌else◌, nat_beq,
}
use tuenel.Routing.{RouteTarget, RoutePlan, insert_by_priority, sort_by_priority, new}

-- Every target stands before those of no smaller priority.
abbrev pub IsSorted : List RouteTarget → Type 0
IsSorted [] = Unit {0}
IsSorted (t ∷ ts) = All (λ u. t.priority ≤ u.priority) ts × IsSorted ts

-- The targets of one priority, in their order.
abbrev pub at_priority : ℕ → List RouteTarget → List RouteTarget
at_priority n ts = filter (λ t. nat_beq t.priority n) ts

All-le :
    (n m : ℕ) (ts : List RouteTarget)
    → n ≤ m
    → All (λ u. m ≤ u.priority) ts
    → All (λ u. n ≤ u.priority) ts
All-le n m [] h hs = tt
All-le n m (t ∷ ts) h hs = (omega arith, All-le n m ts h hs.1)

All-insert :
    (n : ℕ) (t : RouteTarget) (ts : List RouteTarget)
    → n ≤ t.priority
    → All (λ u. n ≤ u.priority) ts
    → All (λ u. n ≤ u.priority) (insert_by_priority t ts)
unfolding insert_by_priority
All-insert n t [] h hs = (h, tt)
All-insert n t (u ∷ us) h hs = ground (arith, All-insert n t us h hs.1)

insert-IsSorted :
    (t : RouteTarget) (ts : List RouteTarget) → IsSorted ts → IsSorted (insert_by_priority t ts)
unfolding insert_by_priority
insert-IsSorted t [] h = (tt, tt)
insert-IsSorted t (u ∷ us) h = elim (Bool-cases (leb t.priority u.priority)) [
  | inl e ↦ rw e ((ground arith, All-le t.priority u.priority us (ground arith) h.0), h)
  | inr e ↦ rw e (All-insert u.priority t us (ground arith) h.0, insert-IsSorted t us h.1)
]

pub sort-IsSorted : (ts : List RouteTarget) → IsSorted (sort_by_priority ts)
unfolding sort_by_priority
sort-IsSorted [] = tt
sort-IsSorted (t ∷ ts) = insert-IsSorted t (sort_by_priority ts) (sort-IsSorted ts)

insert-perm : (t : RouteTarget) (ts : List RouteTarget) → Perm (insert_by_priority t ts) (t ∷ ts)
unfolding insert_by_priority
insert-perm t [] = Perm.refl (t ∷ [])
insert-perm t (u ∷ us) = elim (Bool-cases (leb t.priority u.priority)) [
  | inl e ↦ rw e (Perm.refl (t ∷ u ∷ us))
  | inr e ↦ rw e (Perm.trans (Perm.cons u (insert-perm t us)) (Perm.swap t u us))
]

pub sort-perm : (ts : List RouteTarget) → Perm (sort_by_priority ts) ts
unfolding sort_by_priority
sort-perm [] = Perm.refl []
sort-perm (t ∷ ts) = Perm.trans (insert-perm t (sort_by_priority ts)) (Perm.cons t (sort-perm ts))

at_priority-insert :
    (n : ℕ) (t : RouteTarget) (ts : List RouteTarget)
    → at_priority n (insert_by_priority t ts) ≡ at_priority n (t ∷ ts)
unfolding insert_by_priority
at_priority-insert n t [] = refl
at_priority-insert n t (u ∷ us) = ground (arith, at_priority-insert n t us)

pub at_priority-sort :
    (n : ℕ) (ts : List RouteTarget) → at_priority n (sort_by_priority ts) ≡ at_priority n ts
unfolding sort_by_priority
at_priority-sort n [] = refl
at_priority-sort n (t ∷ ts) =
    at_priority-insert n t (sort_by_priority ts)
    ∙ ap (λ (us : List RouteTarget). if nat_beq t.priority n then t ∷ us else us)
        (at_priority-sort n ts)

-- A plan built from a list of targets holds the same targets, sorted by priority, and the targets
-- of one priority keep the order of the list.
pub new-IsSorted :
    (ts : List RouteTarget) (plan : RoutePlan)
    → new ts ≡ ok plan
    → IsSorted plan.targets
      × Perm plan.targets ts
      × ((n : ℕ) → at_priority n plan.targets ≡ at_priority n ts)
unfolding new
new-IsSorted [] plan h = absurd (cc)
new-IsSorted (t ∷ ts) plan h =
    let e : plan.targets ≡ sort_by_priority (t ∷ ts) = ground arith in
    rw e (sort-IsSorted (t ∷ ts), sort-perm (t ∷ ts), λ n. at_priority-sort n (t ∷ ts))
