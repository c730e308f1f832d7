-- ===== src/Store/Memory.antt =====
-- stores/store-memory/src/lib.rs: the in-memory store. `year` and `ordinal` are chrono's methods of
-- a `DateTime<Utc>`, `uuid_text` the text of a `Uuid`. The operations that ignore the state and
-- return a constant are fields of `memory_store`.
pub mod Quota
pub mod Ledger
pub mod Keys
use Prim.Native.String.{◌++◌}
use text.Mathlib.Text.{starts_with}
use tuenel.Prelude.{
  ℕ, String, Bool, true, false, not, ◌&&◌, Option, none, some, List, [], ◌∷◌, map, Result, ok, err,
  Exec, ◌==◌, nat_eq, string_eq, option_eq, leb, ltb, if◌then◌else◌, filter, find,
}
use tuenel.Prelude.Words.{sum_u64, saturating_add}
use tuenel.Prelude.Maps.{HashMap, get, insert, remove, values, contains_key}
use tuenel.Types.Identity.{Uuid, DateTime, VirtualKeyRecord}
use tuenel.Types.Inference.{total_tokens}
use tuenel.Types.Usage.{UsageEvent, QuotaOwner, QuotaReservation, reserved_tokens, owner_eq}
use tuenel.Store.Boundary.{TenantRecord, StoreError, conflict, not_found, GatewayStore}

-- chrono's view of an instant.
pub record Calendar : Type 0 where
  pub year : DateTime → ℕ
  pub ordinal : DateTime → ℕ

pub record State (Decimal : Type 0) : Type 0 where
  pub tenants : HashMap String TenantRecord
  pub keys : HashMap String (VirtualKeyRecord Decimal)
  pub reservations : HashMap Uuid QuotaReservation
  pub usage : HashMap Uuid (UsageEvent Decimal)

-- MemoryStore::new
abbrev pub new : {Decimal : Type 0} → State Decimal
new = record { tenants = []; keys = []; reservations = []; usage = [] }

unfoldable pub same_utc_day : Calendar → DateTime → DateTime → Bool
same_utc_day c left right = c.year left == c.year right && c.ordinal left == c.ordinal right

-- Option::get_or_insert_with
abbrev pub get_or_insert : Option DateTime → DateTime → DateTime
get_or_insert none now = now
get_or_insert (some t) now = t

module _ {Decimal : Type 0} where
  unfoldable pub insert_tenant : TenantRecord → Exec (State Decimal) StoreError (Unit {0})
  insert_tenant t s = (ok tt, record s { tenants = insert s.tenants t.id t })

  unfoldable pub find_tenant : String → Exec (State Decimal) StoreError (Option TenantRecord)
  find_tenant tenant_id s = (ok (get s.tenants tenant_id), s)

  unfoldable pub insert_virtual_key :
      VirtualKeyRecord Decimal → Exec (State Decimal) StoreError (Unit {0})
  insert_virtual_key key s =
      if contains_key s.keys key.lookup_prefix
      then (err conflict, s)
      else (ok tt, record s { keys = insert s.keys key.lookup_prefix key })

  unfoldable pub find_virtual_key_by_prefix :
      String → Exec (State Decimal) StoreError (Option (VirtualKeyRecord Decimal))
  find_virtual_key_by_prefix prefix s = (ok (get s.keys prefix), s)

  -- The test of `revoke_virtual_key`.
  unfoldable pub is_revocable : String → Option String → Uuid → VirtualKeyRecord Decimal → Bool
  is_revocable tenant_id none key_id key = key.id == key_id && key.tenant_id == tenant_id
  is_revocable tenant_id (some project) key_id key =
      key.id == key_id && key.tenant_id == tenant_id && key.project_id == some project

  abbrev pub revoke : DateTime → VirtualKeyRecord Decimal → VirtualKeyRecord Decimal
  revoke now key = record key { revoked_at = some (get_or_insert key.revoked_at now) }

  -- `values_mut().find(p)` followed by a change of the value that was found; `none` if none was.
  unfoldable pub update_first :
      (VirtualKeyRecord Decimal → Bool)
      → (VirtualKeyRecord Decimal → VirtualKeyRecord Decimal)
      → HashMap String (VirtualKeyRecord Decimal)
      → Option (HashMap String (VirtualKeyRecord Decimal))
  update_first p f [] = none
  update_first p f ((k, v) ∷ m) =
      let rest = update_first p f m in
      if p v then some ((k, f v) ∷ m) else elim rest [ none ↦ none | some m' ↦ some ((k, v) ∷ m') ]

  unfoldable pub revoke_virtual_key :
      DateTime → String → Option String → Uuid → Exec (State Decimal) StoreError Bool
  revoke_virtual_key now tenant_id project_id key_id s =
      elim (update_first (is_revocable tenant_id project_id key_id) (revoke now) s.keys) [
        | none ↦ (ok false, s)
        | some m ↦ (ok true, record s { keys = m })
      ]

  -- The limit of the owner of a reservation.
  unfoldable pub limit_of : QuotaOwner → State Decimal → Option ℕ
  limit_of (QuotaOwner.tenant id) s = elim (get s.tenants id) [
    | none ↦ none
    | some t ↦ some t.daily_token_limit
  ]
  limit_of (QuotaOwner.virtual_key id) s =
      elim (find (λ (k : VirtualKeyRecord Decimal). k.id == id) (values s.keys)) [
        | none ↦ none
        | some k ↦ some k.daily_token_limit
      ]

  -- Whether an event counts against the owner of a reservation.
  unfoldable pub is_charged : (Uuid → String) → QuotaOwner → UsageEvent Decimal → Bool
  is_charged uuid_text (QuotaOwner.tenant id) e = not (starts_with e.principal_id "virtual-key:")
  is_charged uuid_text (QuotaOwner.virtual_key id) e =
      e.principal_id == ("virtual-key:" ++ uuid_text id)

  -- The usage of the day that `reserve_quota` sums.
  unfoldable pub used_tokens :
      Calendar → (Uuid → String) → DateTime → QuotaReservation → State Decimal → List ℕ
  used_tokens c uuid_text now r s =
      map (λ (e : UsageEvent Decimal). total_tokens e.usage)
        (filter
          (λ e.
            e.tenant_id == r.tenant_id
            && same_utc_day c e.occurred_at now
            && is_charged uuid_text r.owner e)
          (values s.usage))

  -- The reservations of the owner that `reserve_quota` sums.
  unfoldable pub pending_tokens : QuotaOwner → State Decimal → List ℕ
  pending_tokens owner s =
      map reserved_tokens
        (filter (λ (p : QuotaReservation). p.owner == owner) (values s.reservations))

  unfoldable pub reserve_quota :
      Calendar
      → (Uuid → String)
      → DateTime
      → QuotaReservation
      → Exec (State Decimal) StoreError Bool
  reserve_quota c uuid_text now r s = elim (limit_of r.owner s) [
    | none ↦ (err not_found, s)
    | some limit ↦
        let used = sum_u64 (used_tokens c uuid_text now r s) in
        let pending = sum_u64 (pending_tokens r.owner s) in
        if ltb limit (saturating_add (saturating_add used pending) (reserved_tokens r))
        then (ok false, s)
        else (ok true, record s { reservations = insert s.reservations r.reservation_id r })
  ]

  unfoldable pub finalize_usage :
      Uuid → UsageEvent Decimal → Exec (State Decimal) StoreError (Unit {0})
  finalize_usage reservation_id event s = (
    ok tt,
    record s {
      reservations = remove s.reservations reservation_id;
      usage =
          if contains_key s.usage event.request_id
          then s.usage
          else insert s.usage event.request_id event;
    },
  )

  unfoldable pub release_reservation : Uuid → Exec (State Decimal) StoreError (Unit {0})
  release_reservation reservation_id s =
      (ok tt, record s { reservations = remove s.reservations reservation_id })

  unfoldable pub expired_reservations :
      DateTime → Exec (State Decimal) StoreError (List QuotaReservation)
  expired_reservations now s =
      (ok (filter (λ (r : QuotaReservation). leb r.expires_at now) (values s.reservations)), s)

  unfoldable pub usage_by_request :
      Uuid → Exec (State Decimal) StoreError (Option (UsageEvent Decimal))
  usage_by_request request_id s = (ok (get s.usage request_id), s)

  -- impl GatewayStore for MemoryStore
  unfoldable pub memory_store : Calendar → (Uuid → String) → GatewayStore Decimal (State Decimal)
  memory_store c uuid_text = record {
    ping = λ s. (ok tt, s);
    insert_tenant = insert_tenant;
    find_tenant = find_tenant;
    project_for_endpoint = λ _ s. (ok none, s);
    plan_requests_per_minute = λ _ s. (ok none, s);
    plan_resource_usage = λ _ _ s. (ok none, s);
    plan_feature_enabled = λ _ _ s. (ok none, s);
    insert_virtual_key = insert_virtual_key;
    find_virtual_key_by_prefix = find_virtual_key_by_prefix;
    touch_virtual_key = λ _ s. (ok tt, s);
    revoke_virtual_key = revoke_virtual_key;
    reserve_quota = reserve_quota c uuid_text;
    finalize_usage = finalize_usage;
    release_reservation = release_reservation;
    expired_reservations = expired_reservations;
    usage_by_request = usage_by_request;
  }
