-- ===== src/Core/Counted.antt =====
-- What the task of an uninspected stream counts (crates/gateway-core/src/lib.rs, `consume_stream`).
use Prim.Native.Nat.{min}
use Prim.Native.String.{len}
use mathlib.Core.List.{◌++◌ as append}
use tuenel.Prelude.{
  ℕ, zero, suc, ◌+◌, ◌≤◌, ◌≡◌, refl, true, ◌∙◌, Bool, Option, none, some, List, [], ◌∷◌, Result, ok,
  err, arith, length, filter, Bool-cases, inl, inr, nat_eq, string_eq,
}
use tuenel.Prelude.Words.{saturating_add, u64_max}
use tuenel.Types.Inference.{GatewayStreamEvent, started, delta, finished, usage, TokenUsage}
use tuenel.Types.Usage.{QuotaReservation}
use tuenel.Providers.Boundary.{GatewayStream}
use tuenel.Core.Service.{GatewayError}
use tuenel.Core.Streams.{
  Sender, send, Tally, new_tally, count, should_send, pump, usage_or_estimate,
}
use tuenel.Core.Delivery.{before, wanted, filter-should_send, sender}

-- The last usage that the provider reports.
abbrev pub last_usage : List GatewayStreamEvent → Option TokenUsage → Option TokenUsage
last_usage [] old = old
last_usage (usage u ∷ events) old = last_usage events (some u)
last_usage (started id ∷ events) old = last_usage events old
last_usage (delta content ∷ events) old = last_usage events old
last_usage (finished reason ∷ events) old = last_usage events old

-- The bytes of the deltas.
abbrev pub delta_bytes : List GatewayStreamEvent → ℕ
delta_bytes [] = 0
delta_bytes (delta content ∷ events) = len content + delta_bytes events
delta_bytes (started id ∷ events) = delta_bytes events
delta_bytes (finished reason ∷ events) = delta_bytes events
delta_bytes (usage u ∷ events) = delta_bytes events

-- The usage that a stream of these events is billed with: the last report of the provider, or else
-- an estimate of the reserved prompt and one token for each byte of output, at most 2 ^ 64 - 1.
abbrev pub billed : QuotaReservation → List GatewayStreamEvent → TokenUsage
billed r events = elim (last_usage events none) [
  | some u ↦ u
  | none ↦ record {
    prompt_tokens = r.prompt_tokens;
    completion_tokens = min (delta_bytes events) u64_max;
    estimated = true;
  }
]

pub usage_or_estimate-billed :
    (r : QuotaReservation) (events : List GatewayStreamEvent)
    → usage_or_estimate r (last_usage events none) (saturating_add 0 (delta_bytes events))
      ≡ billed r events
unfolding usage_or_estimate
usage_or_estimate-billed r events = ground arith

-- What a stream of these events comes to.
abbrev pub tally_of : List GatewayStreamEvent → Tally → Tally
tally_of [] t = t
tally_of (event ∷ events) t = tally_of events (count event t)

tally_of-reported :
    (events : List GatewayStreamEvent) (t : Tally)
    → (tally_of events t).reported ≡ last_usage events t.reported
tally_of-reported [] t = refl
tally_of-reported (usage u ∷ events) t = tally_of-reported events (count (usage u) t)
tally_of-reported (started id ∷ events) t = tally_of-reported events t
tally_of-reported (finished reason ∷ events) t = tally_of-reported events t
tally_of-reported (delta content ∷ events) t = tally_of-reported events (count (delta content) t)

tally_of-output_bytes :
    (events : List GatewayStreamEvent) (t : Tally)
    → t.output_bytes ≤ u64_max
    → (tally_of events t).output_bytes ≡ saturating_add t.output_bytes (delta_bytes events)
tally_of-output_bytes [] t h = omega arith
tally_of-output_bytes (usage u ∷ events) t h = tally_of-output_bytes events (count (usage u) t) h
tally_of-output_bytes (started id ∷ events) t h = tally_of-output_bytes events t h
tally_of-output_bytes (finished reason ∷ events) t h = tally_of-output_bytes events t h
tally_of-output_bytes (delta content ∷ events) t h =
    omega (arith, tally_of-output_bytes events (count (delta content) t) (omega arith))

-- A client that listens to the end has every event before the first error counted.
counted_from :
    (include_usage : Bool) (items : GatewayStream) (t : Tally)
    (sent : List (Result GatewayError GatewayStreamEvent)) (left : ℕ)
    → length (filter (should_send include_usage) (before items)) ≤ left
    → let tally = (pump include_usage items t (sender sent left)).0 in
      (tally.reported ≡ (tally_of (before items) t).reported)
      × (tally.output_bytes ≡ (tally_of (before items) t).output_bytes)
unfolding pump send
counted_from include_usage [] t sent left h = (refl, refl)
counted_from include_usage (err error ∷ items) t sent left h = (refl, refl)
counted_from include_usage (ok event ∷ items) t sent zero h =
    elim (Bool-cases (should_send include_usage event)) [
      | inl on ↦ absurd (ground (arith, on, h))
      | inr off ↦ ground (arith, off, h, counted_from include_usage items (count event t) sent zero)
    ]
counted_from include_usage (ok event ∷ items) t sent (suc n) h =
    elim (Bool-cases (should_send include_usage event)) [
      | inl on ↦ ground (
        arith,
        on,
        h,
        counted_from include_usage items (count event t) (append sent (ok event ∷ [])) n,
      )
      | inr off ↦
          ground (arith, off, h, counted_from include_usage items (count event t) sent (suc n))
    ]

-- A client that listens to the end has the last reported usage and the bytes of all deltas
-- counted.
pub pump-counted :
    (include_usage : Bool) (items : GatewayStream) (s : Sender)
    → length (wanted include_usage (before items)) ≤ s.left
    → let tally = (pump include_usage items new_tally s).0 in
      (tally.reported ≡ last_usage (before items) none)
      × (tally.output_bytes ≡ saturating_add 0 (delta_bytes (before items)))
pump-counted include_usage items s h =
    let counted =
      counted_from include_usage items new_tally s.sent s.left (rw filter-should_send h) in
    (
      counted.0 ∙ tally_of-reported (before items) new_tally,
      counted.1 ∙ tally_of-output_bytes (before items) new_tally (omega arith),
    )
