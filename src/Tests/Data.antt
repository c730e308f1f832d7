-- ===== src/Tests/Data.antt =====
-- Test data: a tenant's gateway with one provider and one route over the in-memory store, whose
-- prices are natural numbers.
use Prim.Native.Nat.{◌*◌}
use tuenel.Prelude.{err, ℕ, ◌+◌, true, false, none, some, [], ◌∷◌, ok}
use tuenel.Types.Identity.{Principal, virtual_key, VirtualKeyRecord}
use tuenel.Types.Inference.{delta, finished, user, GatewayRequest, GatewayResponse, ModelRoute}
use tuenel.Types.Decimal.{DecimalOps}
use tuenel.Types.Usage.{QuotaReservation, UsageEvent, tenant, succeeded, legacy_estimate}
use tuenel.Policy.{Policy}
use tuenel.Providers.{ProviderError}
use tuenel.Policy
use tuenel.Routing.{RouteTarget, RoutePlan}
use tuenel.Store.Memory.{Calendar, State}
use tuenel.Quota.{InferenceQuotaCounter}
use tuenel.Providers.Boundary.{ModelProvider}
use tuenel.Core.Service.{Ticks}
use tuenel.Core.Memory.{MemoryConfig, MemoryWorld}

-- Every instant is a day of its own year.
abbrev pub calendar : Calendar
calendar = record { year = λ t. t; ordinal = λ _. 0 }

abbrev pub decimals : DecimalOps ℕ
decimals = record {
  zero_value = 0;
  one = 1;
  from_u64 = λ n. n;
  add = λ a b. a + b;
  mul = λ a b. a * b;
  div = λ a _. a;
  round_dp = λ a _. a;
}

abbrev pub caller : Principal
caller = record {
  principal_id = "p1";
  tenant_id = "acme";
  project_id = some "web";
  user_id = none;
  roles = [];
  scopes = [];
  authentication_method = virtual_key;
  virtual_key_id = none;
}

-- A caller who may use the model `small` only.
abbrev pub scoped_caller : Principal
scoped_caller = record caller { scopes = "model:small" ∷ [] }

abbrev pub target : RouteTarget
target = record {
  tenant_id = none;
  project_id = none;
  provider = "openai";
  requested_model = "fast";
  upstream_model = "gpt";
  priority = 2;
  enabled = true;
}

abbrev pub own_target : RouteTarget
own_target = record target { tenant_id = some "acme"; priority = 1 }

abbrev pub route : ModelRoute
route = record { provider = "openai"; requested_model = "fast"; upstream_model = "gpt" }

abbrev pub plan : RoutePlan
plan = record { targets = own_target ∷ target ∷ [] }

abbrev pub response : GatewayResponse
response = record {
  id = "r";
  model = "gpt";
  content = "hello";
  finish_reason = none;
  usage = record { prompt_tokens = 3; completion_tokens = 2; estimated = false };
}

abbrev pub openai : ModelProvider ℕ (Unit {0})
openai = record {
  execute = λ _ _ s. (some (ok response), s);
  stream = λ _ _ s. (some (ok (ok (delta "hello") ∷ ok (finished none) ∷ [])), s);
  infer = λ _ _ s. (some (ok response), s);
  stream_infer = λ _ _ s. (none, s);
  embed = λ _ _ s. (some (err ProviderError.unsupported), s);
}

abbrev pub request : GatewayRequest ℕ
request = record {
  model = "fast";
  messages = record { role = user; content = "hi" } ∷ [];
  stream = false;
  stream_include_usage = false;
  generation = record {
    temperature = none;
    top_p = none;
    max_output_tokens = 20;
    max_output_tokens_explicit = true;
    stop = [];
  };
}

-- A counter that hands out the key "k" and counts the keys that are out.
abbrev pub counter : InferenceQuotaCounter ℕ
counter = record { reserve_key = λ _ _ c. (ok "k", c + 1); release_key = λ _ c. (ok tt, 0) }

abbrev pub config : MemoryConfig ℕ ℕ ℕ (Unit {0}) (Unit {0})
config = record {
  calendar = calendar;
  uuid_text = λ _. "id";
  decimals = decimals;
  from_std = λ t. some t;
  router = record { route = route };
  providers = ("openai", openai) ∷ [];
  plan = some plan;
  policies = λ _. ok Policy.default;
  enforcer = none;
  ttl = 60;
  counter = some counter;
  pricing = record { input_per_million = 1; output_per_million = 1 };
  catalog = none;
}

-- The same without a provider in the registry.
abbrev pub bare_config : MemoryConfig ℕ ℕ ℕ (Unit {0}) (Unit {0})
bare_config = record config { providers = [] }

abbrev pub store : State ℕ
store = record {
  tenants = ("acme", record { id = "acme"; daily_token_limit = 1000 }) ∷ [];
  keys = [];
  reservations = [];
  usage = [];
}

abbrev pub world : MemoryWorld ℕ ℕ (Unit {0}) (Unit {0})
world = record {
  quota_world = record { store = store; counter = 0; counter_reservations = [] };
  provider_state = tt;
  security_state = tt;
}

abbrev pub ticks : ℕ → Ticks
ticks i = record {
  reserved_at = 5;
  reservation_id = 100 + i;
  priced_at = 6;
  event_id = 200 + i;
  occurred_at = 7;
  latency_ms = 8;
}

abbrev pub reservation : QuotaReservation
reservation = record {
  reservation_id = 100;
  request_id = 9;
  owner = tenant "acme";
  tenant_id = "acme";
  project_id = some "web";
  principal_id = "p1";
  user_id = none;
  provider = "openai";
  requested_model = "fast";
  upstream_model = "gpt";
  prompt_tokens = 10;
  completion_tokens = 20;
  expires_at = 65;
}

abbrev pub event : UsageEvent ℕ
event = record {
  event_id = 200;
  request_id = 9;
  tenant_id = "acme";
  project_id = some "web";
  principal_id = "p1";
  user_id = none;
  provider = "openai";
  requested_model = "fast";
  upstream_model = "gpt";
  usage = record { prompt_tokens = 3; completion_tokens = 2; estimated = false };
  estimated_cost = 5;
  pricing_status = legacy_estimate;
  status = succeeded;
  latency_ms = some 8;
  occurred_at = 7;
}

abbrev pub key : VirtualKeyRecord ℕ
key = record {
  id = 4;
  display_name = none;
  lookup_prefix = "abc";
  secret_hash = "h";
  tenant_id = "acme";
  project_id = none;
  user_id = none;
  scopes = [];
  expires_at = none;
  revoked_at = none;
  daily_token_limit = 50;
  allowed_models = [];
  daily_request_limit = none;
  monthly_budget = none;
}

abbrev pub keyed_store : State ℕ
keyed_store = record store { keys = ("abc", key) ∷ [] }
