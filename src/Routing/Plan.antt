-- ===== src/Routing/Plan.antt =====
-- What a route plan selects for a caller (crates/gateway-routing/src/lib.rs, `route_for`).
use tuenel.Prelude.{
  ◌≡◌, ◌↔◌, ap, sym, ◌∙◌, any-map, any-filter, any_ext, is_empty-filter, is_empty-map,
  filter-filter, All-filter, All-filter_sub, String, Bool, true, false, not, ◌&&◌, Option, List, [],
  ◌∷◌, map, ok, err, ◌==◌, eq_iff, string_eq, any, All, filter, is_empty, Bool-cases, inl, inr,
  arith,
}
use tuenel.Prelude.Int.{ℤ, int_beq, int_beq_iff, is_negative}
use tuenel.Types.Inference.{ModelRoute}
use tuenel.Routing.{
  RouteTarget, RoutePlan, unknown_model, rank, model_route, enabled_targets, candidates,
  selected_rank, selected, route_for, new,
}
use tuenel.Routing.Ranks.{
  reaches, IsOwn, is_negative-rank, reaches-IsOwn, is_negative-max_rank, max_rank-mem,
}
use tuenel.Routing.Sort.{IsSorted, new-IsSorted}

-- The caller of `tenant` and `project` may use a target of the plan under this alias.
abbrev pub eligible : Option String → Option String → String → RouteTarget → Bool
eligible tenant project model t =
    t.enabled && t.requested_model == model && reaches tenant project t

module _ (plan : RoutePlan) (tenant project : Option String) (model : String) where
  -- A rank is selected as long as some enabled target reaches the caller under the alias.
  is_negative-selected_rank :
      is_negative (selected_rank plan tenant project model)
      ≡ not (any (eligible tenant project model) plan.targets)
  unfolding selected_rank candidates enabled_targets
  is_negative-selected_rank =
      is_negative-max_rank _
      ∙ ap not (
          any-map (λ (r : ℤ). not (is_negative r)) (rank tenant project) _
          ∙ any-filter (λ (t : RouteTarget). not (is_negative (rank tenant project t)))
              (λ (t : RouteTarget). t.requested_model == model) _
          ∙ any-filter
              (λ (t : RouteTarget).
                t.requested_model == model && not (is_negative (rank tenant project t)))
              (λ (t : RouteTarget). t.enabled) plan.targets
          ∙ any_ext plan.targets (λ t. ground (arith, is_negative-rank tenant project t)))

  is_empty-selected :
      is_negative (selected_rank plan tenant project model) ≡ false
      → is_empty (selected plan tenant project model) ≡ false
  unfolding selected selected_rank candidates
  is_empty-selected h =
      is_empty-filter _ (enabled_targets plan)
      ∙ ap not (
          sym
            (any-filter _ (λ (t : RouteTarget). t.requested_model == model) (enabled_targets plan))
          ∙ sym (
              any-map (λ (r : ℤ). int_beq r (selected_rank plan tenant project model))
                (rank tenant project) (candidates plan model))
          ∙ max_rank-mem (map (rank tenant project) (candidates plan model)) h)

  All-selected :
      (P : RouteTarget → Type 0)
      → ((t : RouteTarget)
          → t.enabled ≡ true
          → t.requested_model ≡ model
          → rank tenant project t ≡ selected_rank plan tenant project model
          → P t)
      → All P (selected plan tenant project model)
  unfolding selected enabled_targets
  All-selected P h = rw filter-filter (
      All-filter P _ plan.targets (λ t e.
        h t (ground (arith, e)) ((eq_iff t.requested_model model).0 (ground (arith, e))) (
          (int_beq_iff (rank tenant project t) (selected_rank plan tenant project model)).0
            (ground (arith, e)))))

-- A caller gets no route exactly when no enabled target of the plan reaches the caller under the
-- alias, and the error is then `unknown_model`.
pub route_for-unknown_model :
    (plan : RoutePlan) (tenant project : Option String) (model : String)
    → (route_for plan tenant project model ≡ err unknown_model)
      ↔ (any (eligible tenant project model) plan.targets ≡ false)
unfolding route_for
route_for-unknown_model plan tenant project model = ground (
  arith,
  is_negative-selected_rank plan tenant project model,
  is_empty-selected plan tenant project model,
  is_empty-map model_route (selected plan tenant project model),
)

-- Routes are those of the selected targets, in the order of the plan. Each of these targets is
-- enabled, carries the alias, and names no tenant and no project but the caller's.
pub route_for-IsOwn :
    (plan : RoutePlan) (tenant project : Option String) (model : String) (routes : List ModelRoute)
    → route_for plan tenant project model ≡ ok routes
    → (routes ≡ map model_route (selected plan tenant project model))
      × All
          (λ t. (t.enabled ≡ true) × (t.requested_model ≡ model) × IsOwn tenant project t)
          (selected plan tenant project model)
unfolding route_for
route_for-IsOwn plan tenant project model routes h = (
  ground arith,
  All-selected plan tenant project model _ (λ t e m r. (
    e,
    m,
    reaches-IsOwn tenant project t (ground (arith, r, is_negative-rank tenant project t)),
  )),
)

filter-IsSorted :
    (p : RouteTarget → Bool) (ts : List RouteTarget) → IsSorted ts → IsSorted (filter p ts)
filter-IsSorted p [] h = tt
filter-IsSorted p (t ∷ ts) h = elim (Bool-cases (p t)) [
  | inl e ↦ rw e (All-filter_sub _ p ts h.0, filter-IsSorted p ts h.1)
  | inr e ↦ rw e (filter-IsSorted p ts h.1)
]

-- The routes of a plan that `new` built are tried in the order of their priorities.
pub selected-IsSorted :
    (ts : List RouteTarget) (plan : RoutePlan) (tenant project : Option String) (model : String)
    → new ts ≡ ok plan
    → IsSorted (selected plan tenant project model)
unfolding selected enabled_targets
selected-IsSorted ts plan tenant project model h =
    filter-IsSorted _ _ (filter-IsSorted _ plan.targets (new-IsSorted ts plan h).0)
