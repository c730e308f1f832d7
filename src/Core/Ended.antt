-- ===== src/Core/Ended.antt =====
-- The end of a stream's task over the in-memory store (crates/gateway-core/src/lib.rs) gives its
-- reservation back.
use tuenel.Prelude.{
  ap, ◌∙◌, ◌≡◌, none, Result, ok, err, arith, nat_eq, inl, inr, string_eq, Option-cases,
}
use tuenel.Prelude.Maps.{HashMap, get, insert, remove, remove-insert}
use tuenel.Types.Identity.{Uuid, Principal}
use tuenel.Types.Inference.{TokenUsage}
use tuenel.Types.Usage.{QuotaReservation, UsageStatus}
use tuenel.Core.Service.{GatewayError, Inspect, Ticks}
use tuenel.Core.Fallback.{StreamTask}
use tuenel.Core.Streams.{Sender, finish_stream, consume_plain}
use tuenel.Core.Inspected.{inspect_output, Held, consume_inspected_stream, consume_stream, run_task}
use tuenel.Core.Memory.{
  MemoryConfig, memory_gateway, MemoryWorld, reservations, record_outcome-removes,
}

module _ {F32 Decimal C P Z : Type 0} (k : MemoryConfig F32 Decimal C P Z) where
  finish_stream-removes :
      (ticks : Ticks) (r : QuotaReservation) (u : TokenUsage) (status : UsageStatus) (s : Sender)
      (w : MemoryWorld Decimal C P Z)
      → reservations (finish_stream k.decimals (memory_gateway k) ticks r u status s w).1
        ≡ remove (reservations w) r.reservation_id
  unfolding finish_stream
  finish_stream-removes ticks r u status s w =
      ground (arith, record_outcome-removes k ticks r u status w)

  inspect_output-reservations :
      (inspect : Inspect Z) (request_id : Uuid) (principal : Principal) (h : Held) (s : Sender)
      (w : MemoryWorld Decimal C P Z)
      → reservations
          (inspect_output k.decimals (memory_gateway k) inspect request_id principal h s w).2
        ≡ reservations w
  unfolding inspect_output
  inspect_output-reservations inspect request_id principal h s w = ground arith

  consume_plain-removes :
      (task : StreamTask Z) (s : Sender) (w : MemoryWorld Decimal C P Z)
      → reservations (consume_plain k.decimals (memory_gateway k) task s w).1
        ≡ remove (reservations w) task.reservation.reservation_id
  unfolding consume_plain
  consume_plain-removes task s w = finish_stream-removes task.task_ticks task.reservation _ _ _ w

  consume_inspected-removes :
      (inspect : Inspect Z) (request_id : Uuid) (principal : Principal) (task : StreamTask Z)
      (s : Sender) (w : MemoryWorld Decimal C P Z)
      → reservations
          (consume_inspected_stream k.decimals
            (memory_gateway k)
            inspect
            request_id
            principal
            task
            s
            w).1
        ≡ remove (reservations w) task.reservation.reservation_id
  unfolding consume_inspected_stream
  consume_inspected-removes inspect request_id principal task s w =
      let r = task.reservation in
      finish_stream-removes task.task_ticks r _ _ _ _
      ∙ ap (λ m. remove m r.reservation_id)
          (inspect_output-reservations inspect request_id principal _ _ w)

  -- Whatever the provider streams and however long the client listens, the end of the task removes
  -- the reservation of the stream.
  consume_stream-removes :
      (request_id : Uuid) (principal : Principal) (task : StreamTask Z) (s : Sender)
      (w : MemoryWorld Decimal C P Z)
      → reservations (consume_stream k.decimals (memory_gateway k) request_id principal task s w).1
        ≡ remove (reservations w) task.reservation.reservation_id
  unfolding consume_stream
  consume_stream-removes request_id principal task s w = elim (Option-cases task.security) [
    | inl off ↦ ground (arith, off, consume_plain-removes task s w)
    | inr on ↦ ground (arith, on.1, consume_inspected-removes on.0 request_id principal task s w)
  ]

  -- What a call leaves of the reservations `m`: a started task holds its own.
  abbrev pub HeldBy :
      HashMap Uuid QuotaReservation
      → Result GatewayError (StreamTask Z)
      → HashMap Uuid QuotaReservation
      → Type 0
  HeldBy m (ok task) n =
      (get m task.reservation.reservation_id ≡ none)
      × (n ≡ insert m task.reservation.reservation_id task.reservation)
  HeldBy m (err e) n = n ≡ m

  pub run_task-returns :
      (request_id : Uuid) (principal : Principal) (s : Sender) (m : HashMap Uuid QuotaReservation)
      (p : Result GatewayError (StreamTask Z) × MemoryWorld Decimal C P Z)
      → HeldBy m p.0 (reservations p.1)
      → reservations (run_task k.decimals (memory_gateway k) request_id principal s p).1 ≡ m
  unfolding run_task
  run_task-returns request_id principal s m (ok task, w) held =
      consume_stream-removes request_id principal task s w
      ∙ ap (λ n. remove n task.reservation.reservation_id) held.1
      ∙ remove-insert m task.reservation.reservation_id task.reservation held.0
  run_task-returns request_id principal s m (err e, w) same = same
