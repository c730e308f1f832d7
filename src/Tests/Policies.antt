-- ===== src/Tests/Policies.antt =====
-- The theorems on policies and routes, at small ones.
use tuenel.Prelude.{
  ◌≡◌, refl, true, not, ◌||◌, none, some, [], ◌∷◌, map, ok, All, contains, string_eq, ◌↔◌,
}
use mathlib.Core.List.{Perm}
use tuenel.Policy
use tuenel.Policy.{
  Policy, default, allows_model, authorize, restrict_with, levels, resolve_hierarchy,
}
use tuenel.Policy.Restrict.{authorize-restrict_with, restrict_with_disjoint}
use tuenel.Policy.Hierarchy.{Respects, resolve_hierarchy-Respects}
use tuenel.Routing.{
  RouteTarget, RoutePlan, new, route_for, selected, candidates, model_route, rank, unknown_model,
}
use tuenel.Routing.Ranks.{IsOwn}
use tuenel.Routing.Plan.{route_for-IsOwn}
use tuenel.Routing.Owners.{route_for-most_specific}
use tuenel.Tests.Data.{plan, route, target}

-- A parent that allows two models and a child that allows one of them.
abbrev parent : Policy
parent = record default { allowed_models = "a" ∷ "b" ∷ [] }

abbrev child : Policy
child = record default { allowed_models = "b" ∷ []; max_output_tokens = some 10 }

-- A child that shares no model with the parent.
abbrev stranger : Policy
stranger = record default { allowed_models = "c" ∷ [] }

authorize-restrict_with_example :
    (authorize (restrict_with parent child) "b" "chat" 5 ≡ ok tt)
    ↔ ((authorize parent "b" "chat" 5 ≡ ok tt) × (authorize child "b" "chat" 5 ≡ ok tt))
unfolding Policy.intersect_allowlists
authorize-restrict_with_example = authorize-restrict_with parent child "b" "chat" 5 refl refl

restrict_with_disjoint_example :
    allows_model (restrict_with parent stranger) "z"
    ≡ not (contains parent.denied_models "z" || contains stranger.denied_models "z")
unfolding Policy.intersect_allowlists
restrict_with_disjoint_example = restrict_with_disjoint parent stranger "z" refl

resolve_hierarchy-Respects_example : All (Respects "b" 5) (levels parent child none none none)
unfolding authorize allows_model Policy.allows_operation resolve_hierarchy restrict_with
    Policy.intersect_allowlists Policy.min_opt mathlib.Core.List.filter_map
resolve_hierarchy-Respects_example =
    resolve_hierarchy-Respects parent child none none none "b" "chat" 5 refl

route_for-IsOwn_example :
    (route ∷ [] ≡ map model_route (selected plan (some "acme") none "fast"))
    × All
        (λ t. (t.enabled ≡ true) × (t.requested_model ≡ "fast") × IsOwn (some "acme") none t)
        (selected plan (some "acme") none "fast")
unfolding route_for tuenel.Routing.selected_rank tuenel.Routing.max_rank candidates
    tuenel.Routing.enabled_targets rank selected model_route
route_for-IsOwn_example = route_for-IsOwn plan (some "acme") none "fast" (route ∷ []) refl

-- A project's own target goes before that of its tenant and before a global one.
abbrev tenant_target : RouteTarget
tenant_target = record target { tenant_id = some "acme"; provider = "tenant" }

abbrev project_target : RouteTarget
project_target = record tenant_target { project_id = some "web"; provider = "project" }

route_for-most_specific_example :
    route_for
      (record { targets = target ∷ tenant_target ∷ project_target ∷ [] })
      (some "acme")
      (some "web")
      "fast"
    ≡ ok (model_route project_target ∷ [])
unfolding model_route
route_for-most_specific_example =
    route_for-most_specific (record { targets = target ∷ tenant_target ∷ project_target ∷ [] })
      (some "acme") (some "web") "fast"
