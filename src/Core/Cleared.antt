-- ===== src/Core/Cleared.antt =====
-- What the client of an inspected stream is sent (crates/gateway-core/src/lib.rs,
-- `consume_inspected_stream`): output only as the inspection returned it.
use mathlib.Core.List.{◌++◌ as append}
use tuenel.Prelude.{
  ℕ, zero, suc, String, ◌≡◌, refl, Bool, true, false, not, ◌&&◌, List, [], ◌∷◌, Result, ok, err,
  All, arith, ltb, if◌then◌else◌, nat_eq, string_eq,
}
use Prim.Native.String.{len}
use mathlib.Core.Path.{subst}
use tuenel.Prelude.{sym}
use tuenel.Types.Identity.{Uuid, Principal}
use tuenel.Types.Inference.{GatewayStreamEvent, started, delta, finished, usage}
use tuenel.Types.Security.{
  InspectionContent, prompt_text, model_output, structured_input, tool_arguments, tool_result,
}
use tuenel.Types.Usage.{UsageStatus, succeeded, provider_failed, interrupted}
use tuenel.Providers.Boundary.{GatewayStream}
use tuenel.Core.Service.{GatewayError, provider, Inspect, context_for, on_security}
use tuenel.Core.Fallback.{StreamTask}
use tuenel.Core.Streams.{Sender, send, usage_or_estimate}
use tuenel.Core.Inspected.{
  Held, nothing_held, hold, is_over, hold_back, is_finished, emit_events, emit, release_output,
  inspect_output, consume_inspected_stream,
}
use tuenel.Core.Memory.{MemoryConfig, memory_gateway, MemoryWorld}
use tuenel.Core.Consumed.{finish_stream-sender}

-- A message with output has the output that an inspection returned.
abbrev pub Cleared :
    Result GatewayError InspectionContent → Result GatewayError GatewayStreamEvent → Type 0
Cleared result (ok (delta content)) = result ≡ ok (model_output content)
Cleared result (ok (started id)) = Unit
Cleared result (ok (finished reason)) = Unit
Cleared result (ok (usage u)) = Unit
Cleared result (err e) = Unit

-- An event that is not output.
abbrev Other : GatewayStreamEvent → Type 0
Other (delta content) = ⊥
Other (started id) = Unit
Other (finished reason) = Unit
Other (usage u) = Unit

All-append :
    {A : Type 0} (P : A → Type 0) (xs ys : List A) → All P xs → All P ys → All P (append xs ys)
All-append P [] ys h k = k
All-append P (x ∷ xs) ys h k = (h.0, All-append P xs ys h.1 k)

-- Both ways of a conditional have the property.
if-All : {A : Type 0} (P : A → Type 0) (b : Bool) (x y : A) → P x → P y → P (if b then x else y)
if-All P true x y h k = h
if-All P false x y h k = k

module _ (result : Result GatewayError InspectionContent) where
  abbrev Safe : Sender → Type 0
  Safe s = All (Cleared result) s.sent

  Other-Cleared : (event : GatewayStreamEvent) → Other event → Cleared result (ok event)
  Other-Cleared (started id) h = tt
  Other-Cleared (finished reason) h = tt
  Other-Cleared (usage u) h = tt
  Other-Cleared (delta content) h = absurd h

  send_from-Safe :
      (item : Result GatewayError GatewayStreamEvent)
      (sent : List (Result GatewayError GatewayStreamEvent)) (left : ℕ)
      → All (Cleared result) sent
      → Cleared result item
      → Safe (send item (record { sent = sent; left = left })).1
  unfolding send
  send_from-Safe item sent zero h c = h
  send_from-Safe item sent (suc n) h c = All-append (Cleared result) sent (item ∷ []) h (c, tt)

  send-Safe :
      (item : Result GatewayError GatewayStreamEvent) (s : Sender)
      → Safe s
      → Cleared result item
      → Safe (send item s).1
  send-Safe item s h c = send_from-Safe item s.sent s.left h c

  hold_back-Safe :
      (include_usage : Bool) (items : GatewayStream) (h : Held) (s : Sender)
      → Safe s
      → Safe (hold_back include_usage items h s).1
  unfolding hold_back
  hold_back-Safe include_usage [] h s safe = safe
  hold_back-Safe include_usage (err error ∷ items) h s safe =
      send-Safe (err (provider error)) s safe tt
  hold_back-Safe include_usage (ok event ∷ items) h s safe =
      if-All (λ (p : Held × Sender). Safe p.1) (is_over event (hold include_usage event h)) _ _ safe
        (hold_back-Safe include_usage items (hold include_usage event h) s safe)

  first-Safe :
      (now : Bool) (content : String) (s : Sender)
      → result ≡ ok (model_output content)
      → Safe s
      → Safe (if now then (send (ok (delta content)) s).1 else s)
  first-Safe true content s same safe = send-Safe (ok (delta content)) s safe same
  first-Safe false content s same safe = safe

  emit_events-Safe :
      (content : String) (events : List GatewayStreamEvent) (emitted : Bool) (s : Sender)
      → result ≡ ok (model_output content)
      → All Other events
      → Safe s
      → Safe (emit_events content events emitted s).2
  unfolding emit_events
  emit_events-Safe content [] emitted s same others safe = safe
  emit_events-Safe content (event ∷ events) emitted s same others safe =
      let now = not emitted && is_finished event in
      let s1 : Sender = if now then (send (ok (delta content)) s).1 else s in
      let safe2 =
        send-Safe (ok event) s1 (first-Safe now content s same safe)
          (Other-Cleared event others.0) in
      if-All (λ (p : Bool × UsageStatus × Sender). Safe p.2) (send (ok event) s1).0 _ _
        (emit_events-Safe content events (if now then true else emitted) (send (ok event) s1).1 same
          others.1 safe2)
        safe2

  emit-Safe :
      (content : String) (events : List GatewayStreamEvent) (s : Sender)
      → result ≡ ok (model_output content)
      → All Other events
      → Safe s
      → Safe (emit content events s).1
  unfolding emit
  emit-Safe content events s same others safe =
      first-Safe (not (emit_events content events false s).0 && ltb 0 (len content)) content
        (emit_events content events false s).2 same
        (emit_events-Safe content events false s same others safe)

-- What the inspection leaves to send is cleared by it.
release_output-Safe :
    (result : Result GatewayError InspectionContent) (events : List GatewayStreamEvent) (s : Sender)
    → All Other events
    → Safe result s
    → Safe result (release_output result events s).1
unfolding release_output
release_output-Safe (ok (model_output content)) events s others safe =
    emit-Safe (ok (model_output content)) content events s refl others safe
release_output-Safe (ok (prompt_text v)) events s others safe = safe
release_output-Safe (ok (structured_input v)) events s others safe = safe
release_output-Safe (ok (tool_arguments v)) events s others safe = safe
release_output-Safe (ok (tool_result v)) events s others safe = safe
release_output-Safe (err e) events s others safe = send-Safe (err e) (err e) s safe tt

hold-Other :
    (include_usage : Bool) (event : GatewayStreamEvent) (h : Held)
    → All Other h.events
    → All Other (hold include_usage event h).events
hold-Other include_usage (started id) h others =
    All-append Other h.events (started id ∷ []) others (tt, tt)
hold-Other include_usage (finished reason) h others =
    All-append Other h.events (finished reason ∷ []) others (tt, tt)
hold-Other include_usage (delta content) h others = others
hold-Other true (usage u) h others = All-append Other h.events (usage u ∷ []) others (tt, tt)
hold-Other false (usage u) h others = others

hold_back-Other :
    (include_usage : Bool) (items : GatewayStream) (h : Held) (s : Sender)
    → All Other h.events
    → All Other (hold_back include_usage items h s).0.events
unfolding hold_back
hold_back-Other include_usage [] h s others = others
hold_back-Other include_usage (err error ∷ items) h s others = others
hold_back-Other include_usage (ok event ∷ items) h s others =
    let others' = hold-Other include_usage event h others in
    if-All (λ (p : Held × Sender). All Other p.0.events)
      (is_over event (hold include_usage event h)) _ _ others'
      (hold_back-Other include_usage items (hold include_usage event h) s others')

-- The loop sends nothing where it gives up.
hold_back_silent :
    (include_usage : Bool) (items : GatewayStream) (h : Held) (s : Sender)
    → (hold_back include_usage items h s).0.held_status ≡ interrupted
    → (hold_back include_usage items h s).1 ≡ s
unfolding hold_back
hold_back_silent include_usage [] h s over = refl
hold_back_silent include_usage (err error ∷ items) h s over = absurd (ground (arith, over))
hold_back_silent include_usage (ok event ∷ items) h s over =
    ground (arith, over, hold_back_silent include_usage items (hold include_usage event h) s)

module _ {F32 Decimal C P Z : Type 0} (k : MemoryConfig F32 Decimal C P Z) (inspect : Inspect Z)
    (request_id : Uuid) (principal : Principal) where
  -- What the inspection returns for an output.
  abbrev pub verdict : String → MemoryWorld Decimal C P Z → Result GatewayError InspectionContent
  verdict output w =
      (on_security (memory_gateway k)
        (inspect (context_for (memory_gateway k) request_id principal "llm_output")
          (model_output output))
        w).0

  inspect_output-Safe :
      (h : Held) (s : Sender) (w : MemoryWorld Decimal C P Z)
      → All Other h.events
      → Safe (verdict h.output w) s
      → Safe
          (verdict h.output w)
          (inspect_output k.decimals (memory_gateway k) inspect request_id principal h s w).1
  inspect_output-Safe h s w others safe = by_status h.held_status
    where
      by_status :
          (status : UsageStatus)
          → Safe
              (verdict h.output w)
              (inspect_output k.decimals
                (memory_gateway k)
                inspect
                request_id
                principal
                (record h { held_status = status })
                s
                w).1
      by_status succeeded =
          unfold inspect_output in release_output-Safe (verdict h.output w) h.events s others safe
      by_status provider_failed = unfold inspect_output in safe
      by_status interrupted = unfold inspect_output in safe

  -- Over the in-memory store, the client of an inspected stream is sent no output but the text that
  -- the inspection of the whole output of the provider returned: none at all if the inspection fails.
  pub consume_inspected_stream-Cleared :
      (task : StreamTask Z) (left : ℕ) (w : MemoryWorld Decimal C P Z)
      → let s : Sender = record { sent = []; left = left } in
        All
          (Cleared (verdict (hold_back task.include_usage task.upstream nothing_held s).0.output w))
          (consume_inspected_stream k.decimals
            (memory_gateway k)
            inspect
            request_id
            principal
            task
            s
            w).0.sent
  unfolding consume_inspected_stream
  consume_inspected_stream-Cleared task left w =
      let s : Sender = record { sent = []; left = left } in
      let held = hold_back task.include_usage task.upstream nothing_held s in
      let result = verdict held.0.output w in
      subst (Safe result) (sym (finish_stream-sender k task.task_ticks task.reservation _ _ _ _)) (
        inspect_output-Safe held.0 held.1 w
          (hold_back-Other task.include_usage task.upstream nothing_held s tt)
          (hold_back-Safe result task.include_usage task.upstream nothing_held s tt))

  -- Over the in-memory store, if the output of the provider exceeds the limit before the stream
  -- ends, the client is sent nothing at all, not even an error.
  pub consume_inspected_stream_silent :
      (task : StreamTask Z) (s : Sender) (w : MemoryWorld Decimal C P Z)
      → (hold_back task.include_usage task.upstream nothing_held s).0.held_status ≡ interrupted
      → (consume_inspected_stream k.decimals
          (memory_gateway k)
          inspect
          request_id
          principal
          task
          s
          w).0.sent
        ≡ s.sent
  unfolding consume_inspected_stream inspect_output
  consume_inspected_stream_silent task s w over =
      let held = hold_back task.include_usage task.upstream nothing_held s in
      let silent = hold_back_silent task.include_usage task.upstream nothing_held s over in
      ground (
        arith,
        over,
        silent,
        finish_stream-sender k task.task_ticks task.reservation
            (usage_or_estimate task.reservation held.0.held_usage (len held.0.output)) interrupted
            held.1 w,
      )
