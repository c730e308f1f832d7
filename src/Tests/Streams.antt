-- ===== src/Tests/Streams.antt =====
-- The theorems on Responses requests and streams, at a stream of two events.
use tuenel.Prelude.{nat_eq, ℕ, ◌≡◌, refl, true, false, none, [], ◌∷◌, ok, All, arith, string_eq}
use tuenel.Prelude.Maps.{get}
use tuenel.Types.Inference.{delta, finished, usage, TokenUsage, GatewayInferenceRequest}
use tuenel.Types.Usage.{succeeded}
use tuenel.Types.Security.{model_output}
use tuenel.Core.Service.{Inspect}
use tuenel.Core.Inputs.{Codec}
use tuenel.Core.Fallback.{StreamTask, execute_inference}
use tuenel.Core.Streams.{Sender, stream, stream_inference, consume_plain}
use tuenel.Core.Inspected.{consume_inspected_stream, hold_back, nothing_held, run_task}
use tuenel.Core.Memory.{memory_gateway, reservations}
use tuenel.Core.Ledger.{ledger, Recorded}
use tuenel.Core.Operations.{execute_inference-reservations}
use tuenel.Core.Tasks.{run_task-reservations}
use tuenel.Core.Consumed.{consume_plain-forwarded, consume_plain-Recorded}
use tuenel.Core.Cleared.{Cleared, verdict, consume_inspected_stream-Cleared}
use tuenel.Routing
use tuenel.Core.Service.{routes}
use tuenel.Tests.Data.{caller, route, request, config, world, ticks, reservation}

abbrev inference : GatewayInferenceRequest ℕ
inference = record {
  requested_model = "fast";
  instructions = [];
  messages = request.messages;
  tools = [];
  tool_choice = none;
  response_format = none;
  generation = request.generation;
  stream = true;
  metadata = [];
}

abbrev codec : Codec
codec = record {
  tool_to_value = λ _. none;
  tool_from_value = λ _. none;
  format_to_value = λ _. none;
  format_from_value = λ _. none;
}

abbrev client : Sender
client = record { sent = []; left = 5 }

abbrev task : StreamTask (Unit {0})
task = record {
  upstream = ok (delta "hello") ∷ ok (finished none) ∷ [];
  reservation = reservation;
  include_usage = true;
  task_ticks = ticks 0;
  security = none;
}

abbrev reported : TokenUsage
reported = record { prompt_tokens = 3; completion_tokens = 2; estimated = false }

-- An inspection that hides every output.
abbrev hide : Inspect (Unit {0})
hide _ _ s = (ok (model_output "[hidden]"), s)

execute_inference-reservations_example :
    reservations
      (execute_inference config.decimals config.from_std
        (memory_gateway config)
        (λ _. "0")
        ticks
        9
        caller
        codec
        inference
        world).1
    ≡ reservations world
unfolding routes Routing.route_for Routing.selected Routing.selected_rank Routing.candidates
    Routing.enabled_targets Routing.rank Routing.max_rank Routing.model_route get
execute_inference-reservations_example =
    execute_inference-reservations config (λ _. "0") ticks 9 caller (route ∷ []) world (refl, tt)
      (λ j. refl) codec inference refl

run_task-reservations_example :
    (reservations
        (run_task config.decimals (memory_gateway config) 9 caller client (
          stream config.decimals config.from_std
            (memory_gateway config)
            (λ _. "0")
            ticks
            9
            caller
            request
            world)).1
      ≡ reservations world)
    × (reservations
          (run_task config.decimals (memory_gateway config) 9 caller client (
            stream_inference config.decimals config.from_std
              (memory_gateway config)
              (λ _. "0")
              ticks
              9
              caller
              codec
              inference
              world)).1
        ≡ reservations world)
unfolding routes Routing.route_for Routing.selected Routing.selected_rank Routing.candidates
    Routing.enabled_targets Routing.rank Routing.max_rank Routing.model_route get
run_task-reservations_example =
    run_task-reservations config (λ _. "0") ticks 9 caller (route ∷ []) world (refl, tt) (λ j. refl)
      codec request inference client refl refl

-- A stream that reports its usage to a client that did not ask for it.
abbrev reporting_task : StreamTask (Unit {0})
reporting_task = record task {
  upstream = ok (delta "hello") ∷ ok (usage reported) ∷ ok (finished none) ∷ [];
  include_usage = false;
}

consume_plain-forwarded_example :
    (consume_plain config.decimals (memory_gateway config) reporting_task client world).0.sent
    ≡ (ok (delta "hello") ∷ ok (finished none) ∷ [])
consume_plain-forwarded_example = consume_plain-forwarded config reporting_task client world

consume_plain-Recorded_example : Recorded config 9 reported succeeded (
    ledger config
      (consume_plain config.decimals (memory_gateway config) reporting_task client world).1)
unfolding get
consume_plain-Recorded_example =
    consume_plain-Recorded config reporting_task client world refl (omega arith)

consume_plain-Recorded_estimate :
    Recorded config 9
      (record {
        prompt_tokens = reservation.prompt_tokens;
        completion_tokens = 5;
        estimated = true;
      })
      succeeded
      (ledger config (consume_plain config.decimals (memory_gateway config) task client world).1)
unfolding get
consume_plain-Recorded_estimate = consume_plain-Recorded config task client world refl (omega arith)

consume_inspected_stream-Cleared_example :
    All
      (Cleared (
        verdict config hide 9 caller
          (hold_back true task.upstream nothing_held client).0.output
          world))
      (consume_inspected_stream config.decimals
        (memory_gateway config)
        hide
        9
        caller
        task
        client
        world).0.sent
consume_inspected_stream-Cleared_example =
    consume_inspected_stream-Cleared config hide 9 caller task 5 world
