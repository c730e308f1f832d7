-- ===== src/Routing.antt =====
-- crates/gateway-routing/src/lib.rs: route plans with ranked targets, the single-route registry,
-- and the errors after which the next route is tried.
pub mod Sort
pub mod Plan
pub mod Ranks
pub mod Owners
use mathlib.Core.List.{foldr}
use tuenel.Prelude.{
  ℕ, String, Bool, true, false, ◌&&◌, ◌||◌, Option, none, some, List, [], ◌∷◌, map, Result, ok, err,
  ok_or, ◌==◌, string_eq, option_eq, option_beq, leb, if◌then◌else◌, is_empty, filter, is_some,
  is_none,
}
use tuenel.Prelude.Int.{ℤ, pos, negsuc, int_max, int_beq, is_negative}
use tuenel.Providers.{ProviderError}
use tuenel.Types.Inference.{ModelRoute}

pub record StaticRouter : Type 0 where
  pub route : ModelRoute

pub record RouteTarget : Type 0 where
  pub tenant_id : Option String
  pub project_id : Option String
  pub provider : String
  pub requested_model : String
  pub upstream_model : String
  pub priority : ℕ
  pub enabled : Bool

pub record RoutePlan : Type 0 where
  pub targets : List RouteTarget

pub data RoutingError : Type 0 where
  unknown_model no_targets : RoutingError

-- The library's stable `sort_by_key(|target| target.priority)`: a target goes before the first of
-- those behind it whose priority is not smaller.
unfoldable pub insert_by_priority : RouteTarget → List RouteTarget → List RouteTarget
insert_by_priority t [] = t ∷ []
insert_by_priority t (u ∷ us) =
    let rest = insert_by_priority t us in if leb t.priority u.priority then t ∷ u ∷ us else u ∷ rest

unfoldable pub sort_by_priority : List RouteTarget → List RouteTarget
sort_by_priority = foldr insert_by_priority []

-- RoutePlan::new
unfoldable pub new : List RouteTarget → Result RoutingError RoutePlan
new ts = if is_empty ts then err no_targets else ok (record { targets = sort_by_priority ts })

-- RoutePlan::targets
unfoldable pub enabled_targets : RoutePlan → List RouteTarget
enabled_targets plan = filter (λ t. t.enabled) plan.targets

-- The closure `rank` of `route_for`.
unfoldable pub rank : Option String → Option String → RouteTarget → ℤ
rank tenant_id project_id t =
    if t.tenant_id == tenant_id && t.project_id == project_id && is_some project_id
    then pos 2
    else if t.tenant_id == tenant_id && is_none t.project_id && is_some tenant_id
    then pos 1
    else if is_none t.tenant_id && is_none t.project_id
    then pos 0
    else negsuc 0

-- `.map(rank).max().unwrap_or(-1)`
unfoldable pub max_rank : List ℤ → ℤ
max_rank [] = negsuc 0
max_rank (r ∷ []) = r
max_rank (r ∷ s ∷ rs) = int_max r (max_rank (s ∷ rs))

unfoldable pub model_route : RouteTarget → ModelRoute
model_route t = record {
  provider = t.provider;
  requested_model = t.requested_model;
  upstream_model = t.upstream_model;
}

-- The targets that `route_for` takes the highest rank of.
unfoldable pub candidates : RoutePlan → String → List RouteTarget
candidates plan model = filter (λ t. t.requested_model == model) (enabled_targets plan)

unfoldable pub selected_rank : RoutePlan → Option String → Option String → String → ℤ
selected_rank plan tenant_id project_id model =
    max_rank (map (rank tenant_id project_id) (candidates plan model))

-- The targets that `route_for` keeps.
unfoldable pub selected : RoutePlan → Option String → Option String → String → List RouteTarget
selected plan tenant_id project_id model =
    filter
      (λ t.
        t.requested_model == model
        && int_beq (rank tenant_id project_id t) (selected_rank plan tenant_id project_id model))
      (enabled_targets plan)

unfoldable pub route_for :
    RoutePlan → Option String → Option String → String → Result RoutingError (List ModelRoute)
route_for plan tenant_id project_id model =
    if is_negative (selected_rank plan tenant_id project_id model)
    then err unknown_model
    else let routes = map model_route (selected plan tenant_id project_id model) in
      if is_empty routes then err unknown_model else ok routes

-- 500..=599
abbrev pub is_server_error : ℕ → Bool
is_server_error status = leb 500 status && leb status 599

-- Only these failures let the next route be tried.
unfoldable pub retryable : ProviderError → Bool
retryable ProviderError.timeout = true
retryable ProviderError.transport = true
retryable ProviderError.rate_limited = true
retryable (ProviderError.upstream status) = is_server_error status
retryable (ProviderError.upstream_rejected status code) = is_server_error status
retryable _ = false

-- RoutePlan::route
unfoldable pub route : RoutePlan → String → Result RoutingError (List ModelRoute)
route plan model = route_for plan none none model

-- StaticRouter::resolve
unfoldable pub resolve : StaticRouter → String → Result RoutingError ModelRoute
resolve r model = if model == r.route.requested_model then ok r.route else err unknown_model
