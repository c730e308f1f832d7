-- ===== src/Tests/Stores.antt =====
-- The theorems on the in-memory store, the counter, prices and the circuit, at small states.
use tuenel.Prelude.{
  ℕ, ◌≡◌, ◌+◌, ◌≤◌, refl, true, false, none, some, [], ◌∷◌, ok, err, arith, nat_eq, string_eq, leb,
  ltb, if◌then◌else◌, nat_beq, ◌==◌,
}
use Prim.Native.Nat.{max}
use tuenel.Prelude.Words.{sum}
use tuenel.Prelude.Maps.{get, insert, values}
use tuenel.Types.Usage.{reserved_tokens}
use tuenel.Store.Memory.{
  State, used_tokens, pending_tokens, reserve_quota, finalize_usage, release_reservation,
  is_revocable, revoke, revoke_virtual_key, limit_of,
}
use tuenel.Store.Memory.Quota.{
  reserve_quota-admits, reserve_quota-within, release_reservation-reserve_quota,
}
use tuenel.Store.Memory.Ledger.{or_first, finalize_usage_lem}
use tuenel.Providers
use tuenel.Providers.{snapshot, is_available}
use tuenel.Providers.Health.{run, trailing, status_of, run-snapshot}
use tuenel.Pricing.{ModelPrice, validate_no_overlap, overlapping_windows}
use tuenel.Pricing.Windows.{applies, twice, validate_no_overlap-twice}
use tuenel.Quota
use tuenel.Quota.{QuotaService, reserve, release_counter}
use tuenel.Quota.Counter.{reserve_failed, reserve_leak}
use tuenel.Tests.Data.{
  calendar, caller, route, counter, store, keyed_store, key, world, reservation, event,
}

-- The store after the reservation.
abbrev reserved : State ℕ
reserved = record store { reservations = (100, reservation) ∷ [] }

reserve_quota-admits_example : reserve_quota calendar (λ _. "id") 5 reservation store ≡ (
    if leb
      (sum (used_tokens calendar (λ _. "id") 5 reservation store)
        + sum (pending_tokens reservation.owner store)
        + reserved_tokens reservation)
      1000
    then (ok true, record store { reservations = insert store.reservations 100 reservation })
    else (ok false, store))
unfolding limit_of used_tokens pending_tokens get values
reserve_quota-admits_example =
    reserve_quota-admits calendar (λ _. "id") 5 reservation store 1000 refl (ground arith)
      (ground arith)

reserve_quota-within_example :
    sum (used_tokens calendar (λ _. "id") 5 reservation reserved)
      + sum (pending_tokens reservation.owner reserved)
    ≤ 1000
unfolding limit_of used_tokens pending_tokens get values reserve_quota reserved_tokens insert
reserve_quota-within_example =
    reserve_quota-within calendar (λ _. "id") 5 reservation store reserved 1000 refl (ground arith)
      (ground arith) refl refl

release_reservation-reserve_quota_example : release_reservation 100 reserved ≡ (ok tt, store)
unfolding limit_of used_tokens pending_tokens get values reserve_quota reserved_tokens insert
release_reservation-reserve_quota_example =
    release_reservation-reserve_quota calendar (λ _. "id") 5 reservation store reserved refl refl

finalize_usage_lem_example :
    (get (finalize_usage 100 event reserved).1.usage 9 ≡ (
      if event.request_id == 9
      then some (or_first (get reserved.usage 9) event)
      else get reserved.usage 9))
    × (get (finalize_usage 100 event reserved).1.reservations 100
        ≡ (if nat_beq 100 100 then none else get reserved.reservations 100))
finalize_usage_lem_example = finalize_usage_lem 100 event reserved 9 100

-- The store after the key is revoked.
abbrev revoked_store : State ℕ
revoked_store = record keyed_store { keys = ("abc", record key { revoked_at = some 5 }) ∷ [] }

run-snapshot_example :
    (snapshot (run (Providers.new 3) (true ∷ false ∷ false ∷ [])) ≡ (
      status_of (max 3 1) (trailing 0 (true ∷ false ∷ false ∷ [])),
      trailing 0 (true ∷ false ∷ false ∷ []),
    ))
    × (is_available (run (Providers.new 3) (true ∷ false ∷ false ∷ []))
        ≡ ltb (trailing 0 (true ∷ false ∷ false ∷ [])) (max 3 1))
run-snapshot_example = run-snapshot 3 (true ∷ false ∷ false ∷ []) (ground arith)

abbrev price : ModelPrice ℕ
price = record {
  price_id = 1;
  provider_id = "openai";
  upstream_model = "gpt";
  input_cost_per_million = 1;
  output_cost_per_million = 2;
  cached_input_cost_per_million = none;
  embedding_cost_per_million = none;
  effective_from = 0;
  effective_until = some 10;
}

abbrev next_price : ModelPrice ℕ
next_price = record price { effective_from = 10; effective_until = none }

validate_no_overlap-twice_example :
    twice (applies "openai" "gpt" 10) (price ∷ next_price ∷ []) ≡ false
unfolding validate_no_overlap tuenel.Pricing.overlaps
validate_no_overlap-twice_example =
    validate_no_overlap-twice (price ∷ next_price ∷ []) "openai" "gpt" 10 refl

-- The reservation service of the gateway, with a rate counter.
abbrev service : QuotaService ℕ (State ℕ) ℕ
service = record {
  store = tuenel.Store.Memory.memory_store calendar (λ _. "id");
  ttl = 60;
  counter = some counter;
}

-- The same world without tenants.
abbrev empty_world : Quota.World (State ℕ) ℕ
empty_world = record { store = tuenel.Store.Memory.new; counter = 0; counter_reservations = [] }

reserve_failed_example :
    ((reserve (λ t. some t) service 5 100 9 caller route 10 2000 world.quota_world).1.counter ≡ 0)
    × ((reserve
          (λ t. some t)
          service
          5
          100
          9
          caller
          route
          10
          2000
          world.quota_world).1.counter_reservations
        ≡ [])
unfolding reserve Quota.reserve_counter Quota.settle Quota.release_if_held Quota.owner_of
    Quota.new_reservation tuenel.Store.Memory.memory_store reserve_quota limit_of used_tokens
    pending_tokens values get reserved_tokens
reserve_failed_example =
    reserve_failed (λ t. some t) service counter 5 100 9 caller route 10 2000 world.quota_world none
      "k" Quota.exceeded refl refl refl refl refl

reserve_leak_example :
    ((reserve (λ _. none) service 5 100 9 caller route 10 20 world.quota_world).0
      ≡ err Quota.unavailable)
    × ((reserve (λ _. none) service 5 100 9 caller route 10 20 world.quota_world).1.counter ≡ 1)
    × ((reserve
          (λ _. none)
          service
          5
          100
          9
          caller
          route
          10
          20
          world.quota_world).1.counter_reservations
        ≡ [])
unfolding tuenel.Store.Memory.memory_store
reserve_leak_example =
    reserve_leak (λ _. none) service counter 5 100 9 caller route 10 20 world.quota_world none "k"
      refl refl refl refl
