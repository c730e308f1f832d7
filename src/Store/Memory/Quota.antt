-- ===== src/Store/Memory/Quota.antt =====
-- Admission of quota reservations by the in-memory store (stores/store-memory/src/lib.rs).
use tuenel.Prelude.{
  ℕ, ◌+◌, ◌≤◌, ◌<◌, ◌^◌, ◌≡◌, refl, String, Bool, true, false, none, some, [], ◌∷◌, map, ok, ◌==◌,
  nat_eq, nat_beq_iff, leb, filter, arith, if◌then◌else◌,
}
use tuenel.Prelude.Words.{sum_u64, sum, u64_max, sum_u64-eq-sum}
use tuenel.Prelude.Maps.{HashMap, get, insert, values, remove-insert}
use tuenel.Types.Identity.{Uuid, DateTime}
use tuenel.Types.Usage.{QuotaReservation, reserved_tokens, owner_beq_iff, owner_eq}
use tuenel.Store.Memory.{
  Calendar, State, limit_of, used_tokens, pending_tokens, reserve_quota, release_reservation,
}

-- The sum over the values that pass a test grows by the weight of a value under a new key.
sum-values-insert :
    {V : Type 0} (w : V → ℕ) (p : V → Bool) (m : HashMap Uuid V) (k : Uuid) (v : V)
    → get m k ≡ none
    → p v ≡ true
    → sum (map w (filter p (values (insert m k v)))) ≡ sum (map w (filter p (values m))) + w v
unfolding get insert values
sum-values-insert w p [] k v h e = ground (arith, e)
sum-values-insert w p ((j, u) ∷ m) k v h e =
    ground (arith, nat_beq_iff j k, sum-values-insert w p m k v)

module _ {Decimal : Type 0} (c : Calendar) (uuid_text : Uuid → String) (now : DateTime) where
  -- If the tokens in use and those pending sum up to less than 2 ^ 64, a reservation of an owner
  -- with a limit below the largest u64 is admitted exactly when the tokens in use, those pending
  -- and its own stay within the limit; otherwise it is refused, and the state stays as it is.
  pub reserve_quota-admits :
      (r : QuotaReservation) (s : State Decimal) (limit : ℕ)
      → limit_of r.owner s ≡ some limit
      → limit < u64_max
      → sum (used_tokens c uuid_text now r s) + sum (pending_tokens r.owner s) < 2 ^ 64
      → reserve_quota c uuid_text now r s ≡ (
          if leb
            (sum (used_tokens c uuid_text now r s)
              + sum (pending_tokens r.owner s)
              + reserved_tokens r)
            limit
          then (ok true, record s { reservations = insert s.reservations r.reservation_id r })
          else (ok false, s))
  unfolding reserve_quota
  reserve_quota-admits r s limit hl hm hs = ground (arith, used, pending)
    where
      used : sum_u64 (used_tokens c uuid_text now r s) ≡ sum (used_tokens c uuid_text now r s)
      used = sum_u64-eq-sum _ (omega arith)

      pending : sum_u64 (pending_tokens r.owner s) ≡ sum (pending_tokens r.owner s)
      pending = sum_u64-eq-sum _ (omega arith)

  -- A reservation under a new id that is admitted, with the sums of use and of pending tokens
  -- below 2 ^ 64 and a limit below the largest u64, leaves the tokens in use and all pending
  -- tokens of its owner, its own included, within the owner's limit.
  pub reserve_quota-within :
      (r : QuotaReservation) (s s' : State Decimal) (limit : ℕ)
      → limit_of r.owner s ≡ some limit
      → limit < u64_max
      → sum (used_tokens c uuid_text now r s) + sum (pending_tokens r.owner s) < 2 ^ 64
      → get s.reservations r.reservation_id ≡ none
      → reserve_quota c uuid_text now r s ≡ (ok true, s')
      → sum (used_tokens c uuid_text now r s') + sum (pending_tokens r.owner s') ≤ limit
  unfolding pending_tokens used_tokens
  reserve_quota-within r s s' limit hl hm hs fresh h = ground (
    arith,
    reserve_quota-admits r s limit hl hm hs,
    sum-values-insert reserved_tokens (λ (p : QuotaReservation). p.owner == r.owner) s.reservations
        r.reservation_id r fresh ((owner_beq_iff r.owner r.owner).1 refl),
  )

  -- A reservation under a new id that is admitted and then released leaves no trace.
  pub release_reservation-reserve_quota :
      (r : QuotaReservation) (s s' : State Decimal)
      → get s.reservations r.reservation_id ≡ none
      → reserve_quota c uuid_text now r s ≡ (ok true, s')
      → release_reservation r.reservation_id s' ≡ (ok tt, s)
  unfolding reserve_quota release_reservation
  release_reservation-reserve_quota r s s' fresh h =
      ground (arith, remove-insert s.reservations r.reservation_id r fresh)
