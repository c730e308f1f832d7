-- ===== src/Routing/Owners.antt =====
-- Which owner's targets a route plan selects (crates/gateway-routing/src/lib.rs, `route_for`).
use tuenel.Prelude.{
  ◌≡◌, refl, is_empty-map, is_empty-filter, ap, ◌∙◌, sym, filter-filter, filter_ext, String, Bool,
  true, false, ◌&&◌, ◌||◌, Option, List, [], ◌∷◌, map, Result, ok, err, ◌==◌, string_eq, option_eq,
  option_beq_iff, is_some, is_none, any, filter, is_empty, arith, if◌then◌else◌,
}
use tuenel.Prelude.Int.{ℤ, int_max, pos, negsuc, int_beq, is_negative}
use tuenel.Types.Inference.{ModelRoute}
use tuenel.Routing.{
  RouteTarget, RoutePlan, RoutingError, unknown_model, rank, max_rank, model_route, enabled_targets,
  candidates, selected_rank, selected, route_for,
}

-- The highest rank, from whether some target is the project's, the tenant's or global.
top_rank : Bool → Bool → Bool → ℤ
top_rank p t g = if p then pos 2 else if t then pos 1 else if g then pos 0 else negsuc 0

top_rank_alone : (p t g : Bool) → top_rank p t g ≡ top_rank (p || false) (t || false) (g || false)
top_rank_alone p t g = ground arith

int_max-top_rank :
    (p t g p' t' g' : Bool)
    → int_max (top_rank p t g) (top_rank p' t' g') ≡ top_rank (p || p') (t || t') (g || g')
unfolding top_rank
int_max-top_rank p t g p' t' g' = ground arith

routes_of : List RouteTarget → Result RoutingError (List ModelRoute)
routes_of ts =
    let routes = map model_route ts in if is_empty routes then err unknown_model else ok routes

module _ (tenant project : Option String) where
  -- The target belongs to the caller's project.
  abbrev pub of_project : RouteTarget → Bool
  of_project t = t.tenant_id == tenant && t.project_id == project && is_some project

  -- The target belongs to the caller's tenant as a whole.
  abbrev pub of_tenant : RouteTarget → Bool
  of_tenant t = t.tenant_id == tenant && is_none t.project_id && is_some tenant

  -- The target belongs to nobody.
  abbrev pub is_global : RouteTarget → Bool
  is_global t = is_none t.tenant_id && is_none t.project_id

  rank-top_rank :
      (t : RouteTarget)
      → rank tenant project t ≡ top_rank (of_project t) (of_tenant t) (is_global t)
  unfolding rank top_rank
  rank-top_rank t = refl

  max_rank-top_rank :
      (ts : List RouteTarget)
      → max_rank (map (rank tenant project) ts)
        ≡ top_rank (any of_project ts) (any of_tenant ts) (any is_global ts)
  unfolding max_rank
  max_rank-top_rank [] = unfold top_rank in refl
  max_rank-top_rank (t ∷ []) =
      rank-top_rank t ∙ top_rank_alone (of_project t) (of_tenant t) (is_global t)
  max_rank-top_rank (t ∷ u ∷ ts) =
      ap (λ r. int_max r (max_rank (map (rank tenant project) (u ∷ ts)))) (rank-top_rank t)
      ∙ ap (int_max (top_rank (of_project t) (of_tenant t) (is_global t)))
          (max_rank-top_rank (u ∷ ts))
      ∙ int_max-top_rank (of_project t) (of_tenant t) (is_global t) (any of_project (u ∷ ts))
          (any of_tenant (u ∷ ts)) (any is_global (u ∷ ts))

  -- The three kinds exclude each other.
  rank-of_tenant : (t : RouteTarget) → int_beq (rank tenant project t) (pos 1) ≡ of_tenant t
  unfolding rank
  rank-of_tenant t = ground (arith, option_beq_iff t.project_id project)

  rank-is_global : (t : RouteTarget) → int_beq (rank tenant project t) (pos 0) ≡ is_global t
  unfolding rank
  rank-is_global t =
      ground (arith, option_beq_iff t.project_id project, option_beq_iff t.tenant_id tenant)

  rank-of_project : (t : RouteTarget) → int_beq (rank tenant project t) (pos 2) ≡ of_project t
  unfolding rank
  rank-of_project t = ground arith

  -- The targets of the most specific owner: those of the caller's project if there are any, else
  -- those of its tenant, else the global ones.
  abbrev pub most_specific : List RouteTarget → List RouteTarget
  most_specific ts =
      if any of_project ts
      then filter of_project ts
      else if any of_tenant ts
      then filter of_tenant ts
      else filter is_global ts

  -- What `route_for` answers from the targets of this rank.
  abbrev answer : List RouteTarget → ℤ → Result RoutingError (List ModelRoute)
  answer ts r =
      if is_negative r
      then err unknown_model
      else let routes = map model_route (filter (λ t. int_beq (rank tenant project t) r) ts) in
        if is_empty routes then err unknown_model else ok routes

  answer-top_rank :
      (ts : List RouteTarget) (p t g : Bool)
      → any is_global ts ≡ g
      → answer ts (top_rank p t g)
        ≡ routes_of (
            if p
            then filter of_project ts
            else if t
            then filter of_tenant ts
            else filter is_global ts)
  unfolding top_rank routes_of
  answer-top_rank ts true t g h = ap routes_of (filter_ext ts rank-of_project)
  answer-top_rank ts false true g h = ap routes_of (filter_ext ts rank-of_tenant)
  answer-top_rank ts false false true h = ap routes_of (filter_ext ts rank-is_global)
  answer-top_rank ts false false false h =
      ground
        (arith, h, is_empty-map model_route (filter is_global ts), is_empty-filter is_global ts)

-- The targets that a plan offers under an alias.
abbrev pub offered : String → List RouteTarget → List RouteTarget
offered model ts = filter (λ t. t.enabled && t.requested_model == model) ts

-- A caller gets the routes of the most specific owner, in the order of the plan: those of its
-- project if the plan has an enabled target of the project under the alias, else those of its
-- tenant as a whole, else the global ones; and `unknown_model` if there are none of these either.
pub route_for-most_specific :
    (plan : RoutePlan) (tenant project : Option String) (model : String)
    → let routes = map model_route (most_specific tenant project (offered model plan.targets)) in
      route_for plan tenant project model
      ≡ (if is_empty routes then err unknown_model else ok routes)
unfolding route_for selected selected_rank candidates enabled_targets routes_of
route_for-most_specific plan tenant project model =
    let cs = candidates plan model in
    let p = any (of_project tenant project) cs in
    let t = any (of_tenant tenant project) cs in
    let g = any (is_global tenant project) cs in
    let r = selected_rank plan tenant project model in
    let kept : route_for plan tenant project model ≡ answer tenant project cs r =
      ap (λ ts. if is_negative r then err unknown_model else routes_of ts)
        (sym (filter-filter _ _ (enabled_targets plan))) in
    kept
    ∙ ap (answer tenant project cs) (max_rank-top_rank tenant project cs)
    ∙ answer-top_rank tenant project cs p t g refl
    ∙ ap (λ ts. routes_of (most_specific tenant project ts)) (filter-filter _ _ plan.targets)
