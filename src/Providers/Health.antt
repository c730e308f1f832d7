-- ===== src/Providers/Health.antt =====
-- The circuit state after any course of calls (crates/gateway-providers/src/health.rs).
use Prim.Native.Nat.{max}
use tuenel.Prelude.{
  ℕ, ◌+◌, ◌≤◌, ◌<◌, ◌^◌, ◌≡◌, refl, Bool, true, false, List, [], ◌∷◌, length, ltb, arith, ◌==◌,
  nat_eq, if◌then◌else◌,
}
use tuenel.Providers.{
  ProviderHealthTracker, ProviderHealthStatus, healthy, degraded, unhealthy, new, is_available,
  success, failure, snapshot,
}

-- The outcome of a call: `true` is a success.
abbrev pub step : ProviderHealthTracker → Bool → ProviderHealthTracker
step t true = success t
step t false = failure t

abbrev pub run : ProviderHealthTracker → List Bool → ProviderHealthTracker
run t [] = t
run t (b ∷ bs) = run (step t b) bs

-- The failures at the end of a course of outcomes, with `n` failures before it.
abbrev pub trailing : ℕ → List Bool → ℕ
trailing n [] = n
trailing n (true ∷ bs) = trailing 0 bs
trailing n (false ∷ bs) = trailing (n + 1) bs

-- The status that a count of failures in a row stands for.
abbrev pub status_of : ℕ → ℕ → ProviderHealthStatus
status_of threshold n = if n == 0 then healthy else if ltb n threshold then degraded else unhealthy

-- The tracker stands for `n` failures in a row.
pub record Tracks (n : ℕ) (t : ProviderHealthTracker) : Type 0 where
  pub positive : 1 ≤ t.failure_threshold
  pub counted : t.consecutive_failures ≡ n
  pub state_is : t.state ≡ (if n == 0 then 0 else if ltb n t.failure_threshold then 1 else 2)

success-Tracks : {n : ℕ} {t : ProviderHealthTracker} → Tracks n t → Tracks 0 (success t)
unfolding success
success-Tracks h = ground arith

failure-Tracks :
    {n : ℕ} {t : ProviderHealthTracker} → n + 1 < 2 ^ 32 → Tracks n t → Tracks (n + 1) (failure t)
unfolding failure
failure-Tracks hn h = ground arith

run-Tracks :
    (n : ℕ) (t : ProviderHealthTracker) (bs : List Bool)
    → n + length bs < 2 ^ 32
    → Tracks n t
    → Tracks (trailing n bs) (run t bs)
run-Tracks n t [] hn h = h
run-Tracks n t (true ∷ bs) hn h = run-Tracks 0 (success t) bs (omega arith) (success-Tracks h)
run-Tracks n t (false ∷ bs) hn h =
    run-Tracks (n + 1) (failure t) bs (omega arith) (failure-Tracks (omega arith) h)

threshold-run :
    (t : ProviderHealthTracker) (bs : List Bool)
    → (run t bs).failure_threshold ≡ t.failure_threshold
unfolding success failure
threshold-run t [] = refl
threshold-run t (true ∷ bs) = threshold-run (success t) bs
threshold-run t (false ∷ bs) = threshold-run (failure t) bs

-- After fewer than 2 ^ 32 outcomes, a new tracker reports the number of failures since the last
-- success, is healthy if there is none, degraded below the threshold (0 counts as 1) and unhealthy
-- from the threshold on; it is available except in the last case.
pub run-snapshot :
    (threshold : ℕ) (bs : List Bool)
    → length bs < 2 ^ 32
    → (snapshot (run (new threshold) bs)
        ≡ (status_of (max threshold 1) (trailing 0 bs), trailing 0 bs))
      × (is_available (run (new threshold) bs) ≡ ltb (trailing 0 bs) (max threshold 1))
unfolding new snapshot is_available
run-snapshot threshold bs h = ground (
  arith,
  threshold-run (new threshold) bs,
  run-Tracks 0 (new threshold) bs (omega arith)
      (record { positive = ground arith; counted = refl; state_is = refl }),
)
