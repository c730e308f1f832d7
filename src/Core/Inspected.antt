-- ===== src/Core/Inspected.antt =====
-- crates/gateway-core/src/lib.rs, `consume_inspected_stream`: the output is held back until the
-- provider is done, inspected as a whole, and sent as one delta before the end of the stream.
use Prim.Native.String.{len, ◌++◌}
use mathlib.Core.List.{◌++◌ as append}
use tuenel.Prelude.{
  ℕ, ◌*◌, String, Bool, true, false, not, ◌&&◌, Option, none, some, List, [], ◌∷◌, Result, ok, err,
  ltb, if◌then◌else◌,
}
use tuenel.Types.Identity.{Uuid, Principal}
use tuenel.Types.Inference.{GatewayStreamEvent, started, delta, finished, usage, TokenUsage}
use tuenel.Types.Decimal.{DecimalOps}
use tuenel.Types.Usage.{UsageStatus, succeeded, provider_failed, interrupted}
use tuenel.Types.Security.{InspectionContent, model_output}
use tuenel.Providers.Boundary.{GatewayStream}
use tuenel.Core.Service.{
  GatewayError, provider, GatewayService, World, Inspect, context_for, on_security,
}
use tuenel.Core.Fallback.{StreamTask}
use tuenel.Core.Streams.{Sender, send, usage_or_estimate, finish_stream, consume_plain}

-- The most bytes of output that are held back.
abbrev pub output_limit : ℕ
output_limit = 16 * 1024 * 1024

-- The variables of the loop.
pub record Held : Type 0 where
  pub events : List GatewayStreamEvent
  pub output : String
  pub held_usage : Option TokenUsage
  pub held_status : UsageStatus

abbrev pub nothing_held : Held
nothing_held = record { events = []; output = ""; held_usage = none; held_status = succeeded }

-- An event other than a delta.
abbrev pub hold : Bool → GatewayStreamEvent → Held → Held
hold include_usage (usage u) h = record h {
  held_usage = some u;
  events = if include_usage then append h.events (usage u ∷ []) else h.events;
}
hold include_usage (started id) h = record h { events = append h.events (started id ∷ []) }
hold include_usage (finished reason) h = record h {
  events = append h.events (finished reason ∷ []);
}
hold include_usage (delta content) h = record h { output = h.output ++ content }

abbrev pub is_over : GatewayStreamEvent → Held → Bool
is_over (delta content) h = ltb output_limit (len h.output)
is_over (usage u) h = false
is_over (started id) h = false
is_over (finished reason) h = false

-- The loop over the provider's stream.
unfoldable pub hold_back : Bool → GatewayStream → Held → Sender → Held × Sender
hold_back include_usage [] h s = (h, s)
hold_back include_usage (err error ∷ items) h s =
    (record h { held_status = provider_failed }, (send (err (provider error)) s).1)
hold_back include_usage (ok event ∷ items) h s =
    let h' = hold include_usage event h in
    let rest = hold_back include_usage items h' s in
    if is_over event h' then (record h' { held_status = interrupted }, s) else rest

abbrev pub is_finished : GatewayStreamEvent → Bool
is_finished (finished reason) = true
is_finished (started id) = false
is_finished (delta content) = false
is_finished (usage u) = false

-- The loop that sends the held events: `emitted`, the status and the sender.
unfoldable pub emit_events :
    String → List GatewayStreamEvent → Bool → Sender → Bool × UsageStatus × Sender
emit_events content [] emitted s = (emitted, succeeded, s)
emit_events content (event ∷ events) emitted s =
    let now = not emitted && is_finished event in
    let s1 = if now then (send (ok (delta content)) s).1 else s in
    let (taken, s2) = send (ok event) s1 in
    let rest = emit_events content events (if now then true else emitted) s2 in
    if taken then rest else (if now then true else emitted, interrupted, s2)

-- The arm of a passed inspection.
unfoldable pub emit : String → List GatewayStreamEvent → Sender → UsageStatus × Sender
emit content events s =
    let (emitted, status, s') = emit_events content events false s in
    (status, if not emitted && ltb 0 (len content) then (send (ok (delta content)) s').1 else s')

-- What an inspection leaves to send; another content is not sent.
unfoldable pub release_output :
    Result GatewayError InspectionContent → List GatewayStreamEvent → Sender → UsageStatus × Sender
release_output (ok (model_output content)) events s = emit content events s
release_output (ok _) events s = (succeeded, s)
release_output (err e) events s = (succeeded, (send (err e) s).1)

module _ {F32 Decimal S C P Z : Type 0} (d : DecimalOps Decimal)
    (g : GatewayService F32 Decimal S C P Z) where
  -- The inspection and what follows, if the provider's stream ended well.
  unfoldable pub inspect_output :
      Inspect Z
      → Uuid
      → Principal
      → Held
      → Sender
      → World S C P Z
      → UsageStatus × Sender × World S C P Z
  inspect_output inspect request_id principal h s w = elim h.held_status [
    | succeeded ↦
        let (result, w') =
          on_security g
            (inspect (context_for g request_id principal "llm_output") (model_output h.output)) w in
        let (status, s') = release_output result h.events s in (status, s', w')
    | provider_failed ↦ (provider_failed, s, w)
    | interrupted ↦ (interrupted, s, w)
  ]

  unfoldable pub consume_inspected_stream :
      Inspect Z → Uuid → Principal → StreamTask Z → Sender → World S C P Z → Sender × World S C P Z
  consume_inspected_stream inspect request_id principal task s w =
      let (h, s1) = hold_back task.include_usage task.upstream nothing_held s in
      let (status, s2, w') = inspect_output inspect request_id principal h s1 w in
      finish_stream d g task.task_ticks task.reservation
        (usage_or_estimate task.reservation h.held_usage (len h.output)) status s2 w'

  -- consume_stream
  unfoldable pub consume_stream :
      Uuid → Principal → StreamTask Z → Sender → World S C P Z → Sender × World S C P Z
  consume_stream request_id principal task s w = elim task.security [
    | none ↦ consume_plain d g task s w
    | some inspect ↦ consume_inspected_stream inspect request_id principal task s w
  ]

  -- The task of a stream that was started, run to its end.
  unfoldable pub run_task :
      Uuid
      → Principal
      → Sender
      → Result GatewayError (StreamTask Z) × World S C P Z
      → Sender × World S C P Z
  run_task request_id principal s (ok task, w) = consume_stream request_id principal task s w
  run_task request_id principal s (err e, w) = (s, w)
