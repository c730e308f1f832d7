-- ===== src/Store/Memory/Ledger.antt =====
-- The usage ledger of the in-memory store (stores/store-memory/src/lib.rs).
use tuenel.Prelude.{
  ◌≡◌, ◌⊎◌, true, false, Option, none, some, [], ◌∷◌, ◌==◌, nat_eq, nat_beq_iff, Bool-cases, inl,
  inr, arith, if◌then◌else◌,
}
use tuenel.Prelude.Maps.{
  HashMap, get, insert, contains_key, get-insert, contains_key-get, get-remove,
}
use tuenel.Types.Identity.{Uuid}
use tuenel.Types.Usage.{UsageEvent}
use tuenel.Store.Memory.{State, finalize_usage}

contains_key-some :
    {V : Type 0} (m : HashMap Uuid V) (k : Uuid)
    → contains_key m k ≡ true
    → (v : V) × (get m k ≡ some v)
unfolding contains_key get
contains_key-some [] k h = absurd (cc)
contains_key-some ((j, v) ∷ m) k h = elim (Bool-cases (j == k)) [
  | inl e ↦ (v, rw e)
  | inr e ↦ let (u, p) = contains_key-some m k (ground (arith, e, h)) in (u, ground (arith, e, p))
]

-- The first of an earlier event and a new one.
abbrev pub or_first {ℓ} : {A : Type ℓ} → Option A → A → A
or_first none a = a
or_first (some b) a = b

-- `entry(k).or_insert(v)`
get-or_insert :
    {V : Type 0} (m : HashMap Uuid V) (k : Uuid) (v : V) (j : Uuid)
    → get (if contains_key m k then m else insert m k v) j
      ≡ (if k == j then some (or_first (get m j) v) else get m j)
get-or_insert m k v j = elim (Bool-cases (contains_key m k)) [
  | inl h ↦ let (u, p) = contains_key-some m k h in rw h (same u p (Bool-cases (k == j)))
  | inr h ↦ rw (h, get-insert) (ground (arith, contains_key-get m k h, nat_beq_iff k j))
]
  where
    same :
        (u : _)
        → get m k ≡ some u
        → ((k == j) ≡ true) ⊎ ((k == j) ≡ false)
        → get m j ≡ (if k == j then some (or_first (get m j) v) else get m j)
    same u p (inl e) = rw (e, ← (nat_beq_iff k j).0 e, p)
    same u p (inr e) = rw e

contains_key-insert :
    {V : Type 0} (m : HashMap Uuid V) (k : Uuid) (v : V) → contains_key (insert m k v) k ≡ true
unfolding contains_key insert
contains_key-insert [] k v = ground (arith, nat_beq_iff k k)
contains_key-insert ((j, w) ∷ m) k v = ground (arith, nat_beq_iff k k, contains_key-insert m k v)

module _ {Decimal : Type 0} where
  -- After a finalization the ledger holds, for the request of the event, the event that was there
  -- before, or else the new one; every other request keeps its entry; the reservation is gone and
  -- every other stays.
  pub finalize_usage_lem :
      (reservation_id : Uuid) (e : UsageEvent Decimal) (s : State Decimal) (request_id id : Uuid)
      → (get (finalize_usage reservation_id e s).1.usage request_id ≡ (
          if e.request_id == request_id
          then some (or_first (get s.usage request_id) e)
          else get s.usage request_id))
        × (get (finalize_usage reservation_id e s).1.reservations id
            ≡ (if reservation_id == id then none else get s.reservations id))
  unfolding finalize_usage
  finalize_usage_lem reservation_id e s request_id id =
      (get-or_insert s.usage e.request_id e request_id, get-remove s.reservations reservation_id id)

  -- A second finalization of a request, with whatever reservation and event, leaves the ledger as
  -- the first one made it.
  pub finalize_usage-finalize_usage :
      (r q : Uuid) (e f : UsageEvent Decimal) (s : State Decimal)
      → f.request_id ≡ e.request_id
      → (finalize_usage q f (finalize_usage r e s).1).1.usage ≡ (finalize_usage r e s).1.usage
  unfolding finalize_usage
  finalize_usage-finalize_usage r q e f s h =
      ground (arith, contains_key-insert s.usage e.request_id e)
