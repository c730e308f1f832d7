-- ===== src/Quota/Counter.antt =====
-- The rate counter beside a reservation (crates/gateway-quota/src/lib.rs): a key that the counter
-- hands out is kept for an admitted reservation and handed back otherwise.
use tuenel.Prelude.{ℕ, String, ◌≡◌, Option, none, some, ok, err, arith, nat_eq, nat_beq_iff}
use tuenel.Prelude.Maps.{get, get-insert, remove-insert}
use tuenel.Types.Identity.{Uuid, DateTime, Principal}
use tuenel.Types.Inference.{ModelRoute}
use tuenel.Types.Usage.{QuotaReservation}
use tuenel.Quota.{
  QuotaError, unavailable, InferenceQuotaCounter, QuotaService, World, reserve, release_counter,
  reserve_counter, settle, release_if_held, new_reservation,
}

module _ {Decimal S C : Type 0} (from_std : ℕ → Option ℕ) (q : QuotaService Decimal S C)
    (counter : InferenceQuotaCounter C) (now : DateTime) (id request_id : Uuid)
    (principal : Principal) (route : ModelRoute) (prompt completion : ℕ) (w : World S C)
    (rpm : Option ℕ) (key : String) where
  -- If the counter hands out a key and the time to live converts, a reservation that fails has
  -- handed the key back, and the map of keys is as before.
  pub reserve_failed :
      {ttl : ℕ} (e : QuotaError)
      → q.counter ≡ some counter
      → (q.store.plan_requests_per_minute principal.tenant_id w.store).0 ≡ ok rpm
      → (counter.reserve_key principal rpm w.counter).0 ≡ ok key
      → from_std q.ttl ≡ some ttl
      → (reserve from_std q now id request_id principal route prompt completion w).0 ≡ err e
      → ((reserve from_std q now id request_id principal route prompt completion w).1.counter
          ≡ (counter.release_key key (counter.reserve_key principal rpm w.counter).1).1)
        × ((reserve from_std q now id request_id principal route prompt completion
              w).1.counter_reservations
            ≡ w.counter_reservations)
  unfolding reserve reserve_counter settle release_if_held
  reserve_failed e hq hp hk ht h = ground arith

  -- If the counter hands out a key and the time to live does not convert, the reservation fails as
  -- unavailable, and the key is neither handed back nor kept in the map.
  pub reserve_leak :
      q.counter ≡ some counter
      → (q.store.plan_requests_per_minute principal.tenant_id w.store).0 ≡ ok rpm
      → (counter.reserve_key principal rpm w.counter).0 ≡ ok key
      → from_std q.ttl ≡ none
      → ((reserve from_std q now id request_id principal route prompt completion w).0
          ≡ err unavailable)
        × ((reserve from_std q now id request_id principal route prompt completion w).1.counter
            ≡ (counter.reserve_key principal rpm w.counter).1)
        × ((reserve from_std q now id request_id principal route prompt completion
              w).1.counter_reservations
            ≡ w.counter_reservations)
  unfolding reserve reserve_counter
  reserve_leak hq hp hk ht = ground arith

  -- A successful reservation under a new id carries that id, and `release_counter` then hands back
  -- the key that the counter gave for it and restores the map of keys.
  pub release_counter-reserve :
      {ttl : ℕ} (r : QuotaReservation)
      → q.counter ≡ some counter
      → (q.store.plan_requests_per_minute principal.tenant_id w.store).0 ≡ ok rpm
      → (counter.reserve_key principal rpm w.counter).0 ≡ ok key
      → from_std q.ttl ≡ some ttl
      → get w.counter_reservations id ≡ none
      → (reserve from_std q now id request_id principal route prompt completion w).0 ≡ ok r
      → (r.reservation_id ≡ id)
        × ((release_counter q r.reservation_id
              (reserve from_std q now id request_id principal route prompt completion w).1).counter
            ≡ (counter.release_key key (counter.reserve_key principal rpm w.counter).1).1)
        × ((release_counter q r.reservation_id
              (reserve from_std q now id request_id principal route prompt completion
                w).1).counter_reservations
            ≡ w.counter_reservations)
  unfolding reserve reserve_counter settle release_if_held release_counter new_reservation
  release_counter-reserve r hq hp hk ht fresh h = ground (
    arith,
    get-insert w.counter_reservations id key id,
    nat_beq_iff id id,
    remove-insert w.counter_reservations id key fresh,
  )
