-- ===== src/Core/Inputs.antt =====
-- crates/gateway-core/src/lib.rs: the inspection of Responses and embeddings requests, and the chat
-- request that stands for a Responses request in quotas. `codec` is serde_json's conversion of tool
-- definitions and formats.
use Prim.Native.String.{◌++◌}
use mathlib.Core.List.{◌++◌ as append}
use tuenel.Prelude.{
  ℕ, suc, String, Bool, true, false, Option, none, some, List, [], ◌∷◌, map, Result, ok, Exec,
  ok_or, ◌>>=◌, lift,
}
use tuenel.Types.Identity.{Uuid, Principal}
use tuenel.Types.Json.{Value}
use tuenel.Types.Inference.{
  MessageRole, system, user, GatewayInstruction, InstructionRole, system_role, developer_role,
  ToolDefinition, ResponseFormat, GenerationParameters, GatewayRequest, GatewayInferenceRequest,
  GatewayEmbeddingRequest,
}
use tuenel.Types.Security.{InspectionContent, prompt_text, structured_input}
use tuenel.Security.Errors.{SecurityError}
use tuenel.Core.Service.{
  GatewayError, security, Inspect, GatewayService, World, context_for, on_security, inspected_text,
  inspect_messages,
}

-- `to_value` and `from_value` of the two types that are inspected as JSON.
pub record Codec : Type 0 where
  pub tool_to_value : ToolDefinition → Option Value
  pub tool_from_value : Value → Option ToolDefinition
  pub format_to_value : ResponseFormat → Option Value
  pub format_from_value : Value → Option ResponseFormat

abbrev pub inspection_failed : GatewayError
inspection_failed = security SecurityError.inspection_failed

-- The value that an inspected definition is read back from; another content changes nothing.
abbrev pub inspected_value :
    {A : Type 0} → (Value → Option A) → InspectionContent → A → Result GatewayError A
inspected_value from_value (structured_input value) old = ok_or (from_value value) inspection_failed
inspected_value from_value (prompt_text value) old = ok old
inspected_value from_value _ old = ok old

-- The role of an instruction's message.
abbrev pub message_role : InstructionRole → MessageRole
message_role system_role = system
message_role developer_role = system

unfoldable pub canonical_request :
    {F32 : Type 0} → GatewayInferenceRequest F32 → Bool → GatewayRequest F32
canonical_request request stream = record {
  model = request.requested_model;
  messages =
      append
        (map
          (λ (i : GatewayInstruction). record { role = message_role i.role; content = i.content })
          request.instructions)
        request.messages;
  stream = stream;
  stream_include_usage = stream;
  generation = request.generation;
}

-- The default of `GenerationParameters`.
abbrev pub default_generation : {F32 : Type 0} → GenerationParameters F32
default_generation = record {
  temperature = none;
  top_p = none;
  max_output_tokens = 0;
  max_output_tokens_explicit = false;
  stop = [];
}

-- The chat request that stands for an embeddings request.
unfoldable pub embedding_request : {F32 : Type 0} → GatewayEmbeddingRequest → GatewayRequest F32
embedding_request request = record {
  model = request.requested_model;
  messages = map (λ (content : String). record { role = user; content = content }) request.inputs;
  stream = false;
  stream_include_usage = false;
  generation = default_generation;
}

module _ {F32 Decimal S C P Z : Type 0} (g : GatewayService F32 Decimal S C P Z)
    (index_text : ℕ → String) (inspect : Inspect Z) (request_id : Uuid)
    (principal : Principal) where
  -- One call of the enforcer by this pipeline.
  abbrev pub inspect_one :
      String → InspectionContent → Exec (World S C P Z) GatewayError InspectionContent
  inspect_one stage content =
      on_security g (inspect (context_for g request_id principal stage) content)

  unfoldable pub inspect_instructions :
      ℕ → List GatewayInstruction → Exec (World S C P Z) GatewayError (List GatewayInstruction)
  inspect_instructions index [] = lift (ok [])
  inspect_instructions index (i ∷ is) = do
    content ← inspect_one ("llm_instruction:" ++ index_text index) (prompt_text i.content)
    rest ← inspect_instructions (suc index) is
    lift (ok (record i { content = inspected_text g content i.content } ∷ rest))

  unfoldable pub inspect_tools :
      Codec → ℕ → List ToolDefinition → Exec (World S C P Z) GatewayError (List ToolDefinition)
  inspect_tools codec index [] = lift (ok [])
  inspect_tools codec index (t ∷ ts) = do
    value ← lift (ok_or (codec.tool_to_value t) inspection_failed)
    content ← inspect_one ("llm_tool_definition:" ++ index_text index) (structured_input value)
    tool ← lift (inspected_value codec.tool_from_value content t)
    rest ← inspect_tools codec (suc index) ts
    lift (ok (tool ∷ rest))

  unfoldable pub inspect_format :
      Codec → Option ResponseFormat → Exec (World S C P Z) GatewayError (Option ResponseFormat)
  inspect_format codec none = lift (ok none)
  inspect_format codec (some format) = do
    value ← lift (ok_or (codec.format_to_value format) inspection_failed)
    content ← inspect_one "llm_response_format" (structured_input value)
    read ← lift (inspected_value codec.format_from_value content format)
    lift (ok (some read))

  unfoldable pub inspect_inputs : ℕ → List String → Exec (World S C P Z) GatewayError (List String)
  inspect_inputs index [] = lift (ok [])
  inspect_inputs index (input ∷ inputs) = do
    content ← inspect_one ("embedding_input:" ++ index_text index) (prompt_text input)
    rest ← inspect_inputs (suc index) inputs
    lift (ok (inspected_text g content input ∷ rest))

-- bool::then
abbrev pub if_enabled : {A : Type 0} → Bool → A → Option A
if_enabled true a = some a
if_enabled false a = none

module _ {F32 Decimal S C P Z : Type 0} (g : GatewayService F32 Decimal S C P Z)
    (index_text : ℕ → String) (request_id : Uuid) (principal : Principal) where
  unfoldable pub inspect_inference :
      Codec
      → GatewayInferenceRequest F32
      → Exec (World S C P Z) GatewayError (GatewayInferenceRequest F32)
  inspect_inference codec request w = elim g.enforcer [
    | none ↦ (ok request, w)
    | some e ↦
        (inspect_instructions g index_text e.inspect request_id principal 0 request.instructions
            >>= λ instructions.
                inspect_tools g index_text e.inspect request_id principal codec 0 request.tools
                >>= λ tools.
                    inspect_format g index_text e.inspect request_id principal codec
                      request.response_format
                    >>= λ format.
                        inspect_messages g index_text request_id principal request.messages
                        >>= λ messages. lift (
                            ok (record request {
                              instructions = instructions;
                              tools = tools;
                              response_format = format;
                              messages = messages;
                            })))
          w
  ]

  unfoldable pub inspect_embeddings :
      GatewayEmbeddingRequest → Exec (World S C P Z) GatewayError GatewayEmbeddingRequest
  inspect_embeddings request w = elim g.enforcer [
    | none ↦ (ok request, w)
    | some e ↦
        (inspect_inputs g index_text e.inspect request_id principal 0 request.inputs >>= λ inputs.
        lift (ok (record request { inputs = inputs })))
          w
  ]

  -- Whether the output of a stream is inspected.
  unfoldable pub output_security : Exec (World S C P Z) GatewayError (Option (Inspect Z))
  output_security w = elim g.enforcer [
    | none ↦ (ok none, w)
    | some e ↦
        (on_security g (e.enabled_for (context_for g request_id principal "llm_output")) >>= λ on.
        lift (ok (if_enabled on e.inspect)))
          w
  ]
