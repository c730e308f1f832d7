-- ===== src/Core/Delivery.antt =====
-- What the client of an uninspected stream is sent and with which status it ends
-- (crates/gateway-core/src/lib.rs, `consume_stream`).
use mathlib.Core.List.{◌++◌ as append}
use tuenel.Prelude.{
  ℕ, zero, suc, ◌≡◌, refl, true, false, sym, ap, ◌∙◌, Bool, List, [], ◌∷◌, map, Result, ok, err,
  arith, length, filter, take, is_empty, ltb, if◌then◌else◌, Bool-cases, inl, inr, nat_eq,
  string_eq,
}
use tuenel.Types.Inference.{GatewayStreamEvent, started, delta, finished, usage}
use tuenel.Types.Usage.{UsageStatus, provider_failed, interrupted}
use tuenel.Providers.Boundary.{GatewayStream}
use tuenel.Core.Service.{GatewayError, provider}
use tuenel.Core.Streams.{Sender, send, Tally, count, should_send, pump}

-- The events before the first error of a stream.
abbrev pub before : GatewayStream → List GatewayStreamEvent
before [] = []
before (ok event ∷ items) = event ∷ before items
before (err error ∷ items) = []

-- The first error of a stream, as the client sees it.
abbrev pub failure : GatewayStream → List (Result GatewayError GatewayStreamEvent)
failure [] = []
failure (ok event ∷ items) = failure items
failure (err error ∷ items) = err (provider error) ∷ []

-- The events but the reports of usage.
abbrev pub without_usage : List GatewayStreamEvent → List GatewayStreamEvent
without_usage [] = []
without_usage (usage u ∷ events) = without_usage events
without_usage (started id ∷ events) = started id ∷ without_usage events
without_usage (delta content ∷ events) = delta content ∷ without_usage events
without_usage (finished reason ∷ events) = finished reason ∷ without_usage events

-- The events that a client is to get: the reports of usage only if it asked for them.
abbrev pub wanted : Bool → List GatewayStreamEvent → List GatewayStreamEvent
wanted asked events = if asked then events else without_usage events

pub filter-should_send :
    (asked : Bool) (events : List GatewayStreamEvent)
    → filter (should_send asked) events ≡ wanted asked events
filter-should_send true [] = refl
filter-should_send false [] = refl
filter-should_send true (usage u ∷ events) = ap (λ l. usage u ∷ l) (filter-should_send true events)
filter-should_send true (started id ∷ events) =
    ap (λ l. started id ∷ l) (filter-should_send true events)
filter-should_send true (delta content ∷ events) =
    ap (λ l. delta content ∷ l) (filter-should_send true events)
filter-should_send true (finished reason ∷ events) =
    ap (λ l. finished reason ∷ l) (filter-should_send true events)
filter-should_send false (usage u ∷ events) = filter-should_send false events
filter-should_send false (started id ∷ events) =
    ap (λ l. started id ∷ l) (filter-should_send false events)
filter-should_send false (delta content ∷ events) =
    ap (λ l. delta content ∷ l) (filter-should_send false events)
filter-should_send false (finished reason ∷ events) =
    ap (λ l. finished reason ∷ l) (filter-should_send false events)

-- What a client that listens to the end receives, by the test of the loop.
abbrev passed_on : Bool → GatewayStream → List (Result GatewayError GatewayStreamEvent)
passed_on include_usage items =
    append (map ok (filter (should_send include_usage) (before items))) (failure items)

-- What a client that listens to the end receives.
abbrev pub forwarded : Bool → GatewayStream → List (Result GatewayError GatewayStreamEvent)
forwarded asked items = append (map ok (wanted asked (before items))) (failure items)

append_assoc :
    {A : Type 0} (xs ys zs : List A) → append (append xs ys) zs ≡ append xs (append ys zs)
append_assoc [] ys zs = refl
append_assoc (x ∷ xs) ys zs = ap (λ l. x ∷ l) (append_assoc xs ys zs)

append_nil : {A : Type 0} (xs : List A) → append xs [] ≡ xs
append_nil [] = refl
append_nil (x ∷ xs) = ap (λ l. x ∷ l) (append_nil xs)

take_nil : {A : Type 0} (n : ℕ) → take {A = A} n [] ≡ []
take_nil zero = refl
take_nil (suc n) = refl

abbrev pub sender : List (Result GatewayError GatewayStreamEvent) → ℕ → Sender
sender sent left = record { sent = sent; left = left }

-- One send, as the list of what was sent.
send-sent :
    (item : Result GatewayError GatewayStreamEvent)
    (sent : List (Result GatewayError GatewayStreamEvent)) (left : ℕ)
    → (send item (sender sent left)).1.sent ≡ append sent (take left (item ∷ []))
unfolding send
send-sent item sent zero = sym (append_nil sent)
send-sent item sent (suc n) =
    ap (λ rest. append sent (item ∷ rest))
      (sym (take_nil {A = Result GatewayError GatewayStreamEvent} n))

-- The loop from a sender taken apart.
pump_from :
    (include_usage : Bool) (items : GatewayStream) (t : Tally)
    (sent : List (Result GatewayError GatewayStreamEvent)) (left : ℕ)
    → (pump include_usage items t (sender sent left)).1.sent
      ≡ append sent (take left (passed_on include_usage items))
unfolding pump send
pump_from include_usage [] t sent left =
    ground (arith, append_nil sent, take_nil {A = Result GatewayError GatewayStreamEvent} left)
pump_from include_usage (err error ∷ items) t sent left = send-sent (err (provider error)) sent left
pump_from include_usage (ok event ∷ items) t sent zero =
    elim (Bool-cases (should_send include_usage event)) [
      | inl on ↦ ground (arith, on, append_nil sent)
      | inr off ↦
          ground
            (arith, off, append_nil sent, pump_from include_usage items (count event t) sent zero)
    ]
pump_from include_usage (ok event ∷ items) t sent (suc n) =
    elim (Bool-cases (should_send include_usage event)) [
      | inl on ↦ ground (
        arith,
        on,
        pump_from include_usage items (count event t) (append sent (ok event ∷ [])) n,
        append_assoc sent (ok event ∷ []) (take n (passed_on include_usage items)),
      )
      | inr off ↦ ground (arith, off, pump_from include_usage items (count event t) sent (suc n))
    ]

-- The client of a stream receives, in their order, the events before the first error, the usage
-- only if it asked for it, and then the error, as many of these as it takes before it goes away.
pub pump-sent :
    (include_usage : Bool) (items : GatewayStream) (t : Tally) (s : Sender)
    → (pump include_usage items t s).1.sent
      ≡ append s.sent (take s.left (forwarded include_usage items))
pump-sent include_usage items t s =
    pump_from include_usage items t s.sent s.left
    ∙ ap (λ events. append s.sent (take s.left (append (map ok events) (failure items))))
        (filter-should_send include_usage (before items))

-- The status of an item that could not be sent, or of the end of the stream.
abbrev pub final_status : Bool → GatewayStream → ℕ → UsageStatus → UsageStatus
final_status include_usage items left old =
    if ltb left (length (wanted include_usage (before items)))
    then interrupted
    else if is_empty (failure items)
    then old
    else provider_failed

-- The same, by the test of the loop.
abbrev reached : Bool → GatewayStream → ℕ → UsageStatus → UsageStatus
reached include_usage items left old =
    if ltb left (length (filter (should_send include_usage) (before items)))
    then interrupted
    else if is_empty (failure items)
    then old
    else provider_failed

status_from :
    (include_usage : Bool) (items : GatewayStream) (t : Tally)
    (sent : List (Result GatewayError GatewayStreamEvent)) (left : ℕ)
    → (pump include_usage items t (sender sent left)).0.status
      ≡ reached include_usage items left t.status
unfolding pump send
status_from include_usage [] t sent left = ground arith
status_from include_usage (err error ∷ items) t sent left = ground arith
status_from include_usage (ok event ∷ items) t sent zero =
    elim (Bool-cases (should_send include_usage event)) [
      | inl on ↦ ground (arith, on)
      | inr off ↦ ground (arith, off, status_from include_usage items (count event t) sent zero)
    ]
status_from include_usage (ok event ∷ items) t sent (suc n) =
    elim (Bool-cases (should_send include_usage event)) [
      | inl on ↦ ground (
        arith,
        on,
        status_from include_usage items (count event t) (append sent (ok event ∷ [])) n,
      )
      | inr off ↦ ground (arith, off, status_from include_usage items (count event t) sent (suc n))
    ]

-- The status of a stream is `interrupted` if the client did not take an event, else
-- `provider_failed` if the stream has an error, else as it was.
pub pump-status :
    (include_usage : Bool) (items : GatewayStream) (t : Tally) (s : Sender)
    → (pump include_usage items t s).0.status ≡ final_status include_usage items s.left t.status
pump-status include_usage items t s =
    status_from include_usage items t s.sent s.left
    ∙ ap
        (λ events.
          if ltb s.left (length events)
          then interrupted
          else if is_empty (failure items)
          then t.status
          else provider_failed)
        (filter-should_send include_usage (before items))
