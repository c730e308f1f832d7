-- ===== src/Quota.antt =====
-- crates/gateway-quota/src/lib.rs: the reservation service, over any store and any rate counter.
-- The counter's trait is a record over the counter's state `C`; `from_std` is chrono's conversion
-- of the time to live, `reservation_id` the value of `Uuid::now_v7`, `now` that of `Utc::now`.
-- The two calls of the clock in one reservation, here and in the store, are one instant.
pub mod Counter
use tuenel.Prelude.{
  ℕ, ◌+◌, String, Bool, true, false, Option, none, some, List, [], ◌∷◌, Result, ok, err, ok_or,
  Exec, map_err, continue, ◌>>=◌, lift, ◌==◌, nat_eq,
}
use tuenel.Prelude.Maps.{HashMap, get, insert, remove}
use tuenel.Types.Identity.{Uuid, DateTime, Principal}
use tuenel.Types.Inference.{ModelRoute}
use tuenel.Types.Usage.{QuotaOwner, QuotaReservation}
use tuenel.Store.Boundary.{GatewayStore, StoreError}

pub data QuotaError : Type 0 where
  exceeded unavailable : QuotaError

-- The trait `InferenceQuotaCounter`; a release reports an error that the service ignores.
pub record InferenceQuotaCounter (C : Type 0) : Type 0 where
  pub reserve_key : Principal → Option ℕ → Exec C QuotaError String
  pub release_key : String → Exec C QuotaError (Unit {0})

pub record QuotaService (Decimal S C : Type 0) : Type 0 where
  pub store : GatewayStore Decimal S
  pub ttl : ℕ
  pub counter : Option (InferenceQuotaCounter C)

-- What the service reads and writes: the store, the counter, and its map of counter keys.
pub record World (S C : Type 0) : Type 0 where
  pub store : S
  pub counter : C
  pub counter_reservations : HashMap Uuid String

module _ {S C : Type 0} where
  -- An action of the store, with its failure mapped.
  abbrev pub on_store : {E A : Type 0} → Exec S StoreError A → E → Exec (World S C) E A
  on_store m e w = let (r, s') = m w.store in (map_err (λ _. e) r, record w { store = s' })

  abbrev pub on_counter : {E A : Type 0} → Exec C E A → Exec (World S C) E A
  on_counter m w = let (r, c') = m w.counter in (r, record w { counter = c' })

  -- `Some(counter) => Some(counter.reserve(..).await?)`
  unfoldable pub reserve_counter :
      Option (InferenceQuotaCounter C)
      → Principal
      → Option ℕ
      → Exec (World S C) QuotaError (Option String)
  reserve_counter none principal plan_rpm w = (ok none, w)
  reserve_counter (some counter) principal plan_rpm w =
      (on_counter (counter.reserve_key principal plan_rpm) >>= λ key w'. (ok (some key), w')) w

  -- `let _ = counter.release(&key).await` where there are a counter and a key.
  unfoldable pub release_if_held :
      Option (InferenceQuotaCounter C) → Option String → World S C → World S C
  release_if_held none key w = w
  release_if_held (some counter) none w = w
  release_if_held (some counter) (some key) w = record w {
    counter = (counter.release_key key w.counter).1;
  }

  -- The three outcomes of `self.store.reserve_quota`.
  unfoldable pub settle :
      Option (InferenceQuotaCounter C)
      → Option String
      → QuotaReservation
      → Result StoreError Bool
      → Exec (World S C) QuotaError QuotaReservation
  settle counter none reservation (ok true) w = (ok reservation, w)
  settle counter (some key) reservation (ok true) w = (
    ok reservation,
    record w {
      counter_reservations = insert w.counter_reservations reservation.reservation_id key;
    },
  )
  settle counter key reservation (ok false) w = (err exceeded, release_if_held counter key w)
  settle counter key reservation (err e) w = (err unavailable, release_if_held counter key w)

-- `principal.virtual_key_id.map(VirtualKey).unwrap_or_else(Tenant)`
unfoldable pub owner_of : Principal → QuotaOwner
owner_of p = elim p.virtual_key_id [
  | none ↦ QuotaOwner.tenant p.tenant_id
  | some id ↦ QuotaOwner.virtual_key id
]

unfoldable pub new_reservation :
    Uuid → Uuid → Principal → ModelRoute → ℕ → ℕ → DateTime → QuotaReservation
new_reservation reservation_id request_id principal route prompt completion expires_at = record {
  reservation_id = reservation_id;
  request_id = request_id;
  owner = owner_of principal;
  tenant_id = principal.tenant_id;
  project_id = principal.project_id;
  principal_id = principal.principal_id;
  user_id = principal.user_id;
  provider = route.provider;
  requested_model = route.requested_model;
  upstream_model = route.upstream_model;
  prompt_tokens = prompt;
  completion_tokens = completion;
  expires_at = expires_at;
}

module _ {Decimal S C : Type 0} (from_std : ℕ → Option ℕ) where
  unfoldable pub reserve :
      QuotaService Decimal S C
      → DateTime
      → Uuid
      → Uuid
      → Principal
      → ModelRoute
      → ℕ
      → ℕ
      → Exec (World S C) QuotaError QuotaReservation
  reserve q now reservation_id request_id principal route prompt completion = do
    plan_rpm ← on_store (q.store.plan_requests_per_minute principal.tenant_id) unavailable
    counter_key ← reserve_counter q.counter principal plan_rpm
    ttl ← lift (ok_or (from_std q.ttl) unavailable)
    let reservation =
        new_reservation reservation_id request_id principal route prompt completion (now + ttl)
    λ w.
        let (r, s') = q.store.reserve_quota now reservation w.store in
        settle q.counter counter_key reservation r (record w { store = s' })

module _ {Decimal S C : Type 0} where
  unfoldable pub release_counter : QuotaService Decimal S C → Uuid → World S C → World S C
  release_counter q reservation_id w = elim q.counter [
    | none ↦ record w { counter_reservations = remove w.counter_reservations reservation_id }
    | some counter ↦
        release_if_held (some counter) (get w.counter_reservations reservation_id)
          (record w { counter_reservations = remove w.counter_reservations reservation_id })
  ]
