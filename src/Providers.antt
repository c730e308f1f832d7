-- ===== src/Providers.antt =====
-- crates/gateway-providers/src: provider failures, and the circuit state of a provider (health.rs).
-- The two atomics of the tracker are fields of a record, each call one step.
pub mod Health
pub mod Boundary
use tuenel.Prelude.{
  ℕ, ◌+◌, ◌%◌, ◌^◌, String, Bool, true, false, not, leb, if◌then◌else◌, ◌==◌, nat_eq, List, [], ◌∷◌,
}
use Prim.Native.Nat.{max}

pub data ProviderError : Type 0 where
  unavailable : ProviderError
  unsupported : ProviderError
  timeout : ProviderError
  rate_limited : ProviderError
  upstream : ℕ → ProviderError
  upstream_rejected : ℕ → String → ProviderError
  protocol : ProviderError
  transport : ProviderError

pub data ProviderHealthStatus : Type 0 where
  healthy degraded unhealthy unknown : ProviderHealthStatus

pub record ProviderHealthTracker : Type 0 where
  pub state : ℕ
  pub consecutive_failures : ℕ
  pub failure_threshold : ℕ

-- ProviderHealthTracker::new
unfoldable pub new : ℕ → ProviderHealthTracker
new failure_threshold = record {
  state = 0;
  consecutive_failures = 0;
  failure_threshold = max failure_threshold 1;
}

unfoldable pub is_available : ProviderHealthTracker → Bool
is_available t = not (t.state == 2)

unfoldable pub success : ProviderHealthTracker → ProviderHealthTracker
success t = record t { consecutive_failures = 0; state = 0 }

-- `fetch_add` on a u32 wraps, and so does the addition to its result in a release build.
unfoldable pub failure : ProviderHealthTracker → ProviderHealthTracker
failure t =
    let failures = (t.consecutive_failures + 1) % 2 ^ 32 in
    record t {
      consecutive_failures = failures;
      state = if leb t.failure_threshold failures then 2 else 1;
    }

-- The status and the count of ProviderHealthTracker::snapshot; its two times are always absent.
unfoldable pub snapshot : ProviderHealthTracker → ProviderHealthStatus × ℕ
snapshot t = (
  if t.state == 0 then healthy else if t.state == 1 then degraded else unhealthy,
  t.consecutive_failures,
)
