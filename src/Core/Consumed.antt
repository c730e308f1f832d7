-- ===== src/Core/Consumed.antt =====
-- The task of an uninspected stream over the in-memory store (crates/gateway-core/src/lib.rs,
-- `consume_stream`): what the client receives and what the ledger records.
use mathlib.Core.Path.{subst}
use mathlib.Core.List.{◌++◌ as append}
use tuenel.Prelude.{
  ◌≤◌, ◌≡◌, ap, ◌∙◌, none, is_empty, length, take, if◌then◌else◌, arith, nat_eq, string_eq,
}
use tuenel.Prelude.Maps.{get}
use tuenel.Types.Inference.{TokenUsage}
use tuenel.Types.Usage.{QuotaReservation, UsageStatus, succeeded, provider_failed}
use tuenel.Core.Service.{Ticks}
use tuenel.Core.Fallback.{StreamTask}
use tuenel.Core.Streams.{Sender, new_tally, pump, usage_or_estimate, finish_stream, consume_plain}
use tuenel.Core.Memory.{MemoryConfig, memory_gateway, MemoryWorld, record_outcome-removes}
use tuenel.Core.Ledger.{ledger, Recorded, record_outcome-Recorded}
use tuenel.Core.Delivery.{before, failure, wanted, forwarded, pump-sent, pump-status}
use tuenel.Core.Counted.{last_usage, billed, usage_or_estimate-billed, pump-counted}

module _ {F32 Decimal C P Z : Type 0} (k : MemoryConfig F32 Decimal C P Z) where
  -- The in-memory ledger does not fail, so the end of a task sends nothing.
  pub finish_stream-sender :
      (ticks : Ticks) (r : QuotaReservation) (u : TokenUsage) (status : UsageStatus) (s : Sender)
      (w : MemoryWorld Decimal C P Z)
      → (finish_stream k.decimals (memory_gateway k) ticks r u status s w).0 ≡ s
  unfolding finish_stream
  finish_stream-sender ticks r u status s w =
      ground (arith, record_outcome-removes k ticks r u status w)

  finish_stream-Recorded :
      (ticks : Ticks) (r : QuotaReservation) (u : TokenUsage) (status : UsageStatus) (s : Sender)
      (w : MemoryWorld Decimal C P Z)
      → get (ledger k w) r.request_id ≡ none
      → Recorded k r.request_id u status
          (ledger k (finish_stream k.decimals (memory_gateway k) ticks r u status s w).1)
  unfolding finish_stream
  finish_stream-Recorded ticks r u status s w h = record_outcome-Recorded k ticks r u status w h

  -- Over the in-memory store, the client of a stream that is not inspected receives, in their
  -- order, the events before the provider's first error, without the reports of usage unless it
  -- asked for them, and then the error, as many of these as it takes before it goes away; and
  -- nothing else.
  pub consume_plain-forwarded :
      (task : StreamTask Z) (s : Sender) (w : MemoryWorld Decimal C P Z)
      → (consume_plain k.decimals (memory_gateway k) task s w).0.sent
        ≡ append s.sent (take s.left (forwarded task.include_usage task.upstream))
  unfolding consume_plain
  consume_plain-forwarded task s w =
      ap (λ v. v.sent) (finish_stream-sender task.task_ticks task.reservation _ _ _ w)
      ∙ pump-sent task.include_usage task.upstream new_tally s

  -- Over the in-memory store, if the ledger has no event for the request and the client takes
  -- every event of an uninspected stream that it is to get, the ledger gets an event for it: with
  -- the usage that the provider reported last before its first error, or else an estimate of the
  -- reserved prompt and one token for each byte of output, at most 2 ^ 64 - 1, and with the status
  -- `provider_failed` if the stream has an error, else `succeeded`.
  pub consume_plain-Recorded :
      (task : StreamTask Z) (s : Sender) (w : MemoryWorld Decimal C P Z)
      → get (ledger k w) task.reservation.request_id ≡ none
      → length (wanted task.include_usage (before task.upstream)) ≤ s.left
      → Recorded k task.reservation.request_id
          (billed task.reservation (before task.upstream))
          (if is_empty (failure task.upstream) then succeeded else provider_failed)
          (ledger k (consume_plain k.decimals (memory_gateway k) task s w).1)
  unfolding consume_plain
  consume_plain-Recorded task s w none_yet listens =
      let r = task.reservation in
      let t = (pump task.include_usage task.upstream new_tally s).0 in
      let counted = pump-counted task.include_usage task.upstream s listens in
      let counted_usage = usage_or_estimate r t.reported t.output_bytes in
      let status = if is_empty (failure task.upstream) then succeeded else provider_failed in
      let full : t.status ≡ status =
        pump-status task.include_usage task.upstream new_tally s ∙ ground (arith, listens) in
      let usage : counted_usage ≡ billed r (before task.upstream) =
        ap (λ u. usage_or_estimate r u t.output_bytes) counted.0
        ∙ ap (usage_or_estimate r (last_usage (before task.upstream) none)) counted.1
        ∙ usage_or_estimate-billed r (before task.upstream) in
      let after = ledger k (consume_plain k.decimals (memory_gateway k) task s w).1 in
      subst (λ x. Recorded k r.request_id x status after) usage
        (subst (λ x. Recorded k r.request_id counted_usage x after) full
          (unfold consume_plain in
            finish_stream-Recorded task.task_ticks task.reservation _ _ _ w none_yet))
