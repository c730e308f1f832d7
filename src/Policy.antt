-- ===== src/Policy.antt =====
-- crates/gateway-policy/src/lib.rs: model and operation policies, their restriction by a child
-- policy, and the resolution of the hierarchy.
pub mod Restrict
pub mod Hierarchy
use tuenel.Prelude.{
  ℕ, String, Bool, true, false, not, ◌&&◌, ◌||◌, Option, none, some, List, [], ◌∷◌, ◌++◌, Result,
  ok, err, ltb, if◌then◌else◌, is_empty, filter, contains, string_eq,
}
use mathlib.Core.List.{foldl, filter_map}
use tuenel.Types.Identity.{Principal}

pub record Policy : Type 0 where
  pub allowed_models : List String
  pub denied_models : List String
  pub allowed_operations : List String
  pub max_output_tokens : Option ℕ
  pub concurrent_requests : Option ℕ
  pub daily_token_limit : Option ℕ
  pub monthly_token_limit : Option ℕ

-- The derived `Default`.
abbrev pub default : Policy
default = record {
  allowed_models = [];
  denied_models = [];
  allowed_operations = [];
  max_output_tokens = none;
  concurrent_requests = none;
  daily_token_limit = none;
  monthly_token_limit = none;
}

pub data PolicyError : Type 0 where
  denied unavailable : PolicyError

unfoldable pub allows_model : Policy → String → Bool
allows_model p model =
    not (contains p.denied_models model)
    && (is_empty p.allowed_models || contains p.allowed_models model)

unfoldable pub allows_operation : Policy → String → Bool
allows_operation p operation =
    is_empty p.allowed_operations || contains p.allowed_operations operation

-- `limit.is_some_and(|limit| output_tokens > limit)`
abbrev pub exceeds : Option ℕ → ℕ → Bool
exceeds none n = false
exceeds (some limit) n = ltb limit n

unfoldable pub authorize : Policy → String → String → ℕ → Result PolicyError (Unit {0})
authorize p model operation output_tokens =
    if not (allows_model p model) || not (allows_operation p operation)
    then err denied
    else if exceeds p.max_output_tokens output_tokens
    then err denied
    else ok tt

-- `left.into_iter().chain(right).min()`
unfoldable pub min_opt : Option ℕ → Option ℕ → Option ℕ
min_opt none right = right
min_opt (some a) none = some a
min_opt (some a) (some b) = if ltb b a then some b else some a

unfoldable pub intersect_allowlists : List String → List String → List String
intersect_allowlists [] [] = []
intersect_allowlists [] (b ∷ right) = b ∷ right
intersect_allowlists (a ∷ left) [] = a ∷ left
intersect_allowlists (a ∷ left) (b ∷ right) = filter (λ item. contains (b ∷ right) item) (a ∷ left)

unfoldable pub restrict_with : Policy → Policy → Policy
restrict_with p child = record {
  allowed_models = intersect_allowlists p.allowed_models child.allowed_models;
  denied_models = p.denied_models ++ child.denied_models;
  allowed_operations = intersect_allowlists p.allowed_operations child.allowed_operations;
  max_output_tokens = min_opt p.max_output_tokens child.max_output_tokens;
  concurrent_requests = min_opt p.concurrent_requests child.concurrent_requests;
  daily_token_limit = min_opt p.daily_token_limit child.daily_token_limit;
  monthly_token_limit = min_opt p.monthly_token_limit child.monthly_token_limit;
}

-- `[Some(global), Some(tenant), project, principal, key].into_iter().flatten()`
abbrev pub levels : Policy → Policy → Option Policy → Option Policy → Option Policy → List Policy
levels global tenant project principal key =
    filter_map (λ p. p) (some global ∷ some tenant ∷ project ∷ principal ∷ key ∷ [])

unfoldable pub resolve_hierarchy :
    Policy → Policy → Option Policy → Option Policy → Option Policy → Policy
resolve_hierarchy global tenant project principal key =
    foldl restrict_with default (levels global tenant project principal key)

unfoldable pub principal_scope : Principal → String × Option String × Option String
principal_scope p = (p.tenant_id, p.project_id, p.user_id)
