-- ===== src/Core/Kept.antt =====
-- The steps before the first attempt leave the reservations alone (crates/gateway-core/src/lib.rs):
-- the authorization and the inspections.
use Prim.Native.String.{◌++◌}
use tuenel.Prelude.{
  ℕ, suc, String, refl, none, some, Option, List, [], ◌∷◌, arith, nat_eq, Option-cases, inl, inr,
  string_eq,
}
use tuenel.Types.Identity.{Uuid, Principal}
use tuenel.Types.Inference.{
  GatewayInstruction, ToolDefinition, ResponseFormat, GatewayInferenceRequest,
  GatewayEmbeddingRequest,
}
use tuenel.Types.Security.{InspectionContent, prompt_text, structured_input}
use tuenel.Core.Service.{Inspect, authorize}
use tuenel.Core.Inputs.{
  Codec, inspect_one, inspect_instructions, inspect_tools, inspect_format, inspect_inputs,
  inspect_inference, inspect_embeddings, output_security,
}
use tuenel.Core.Memory.{MemoryConfig, memory_gateway, MemoryWorld}
use tuenel.Core.Settled.{Keeps}
use tuenel.Core.Accounts.{inspect_messages-reservations}

module _ {F32 Decimal C P Z : Type 0} (k : MemoryConfig F32 Decimal C P Z) where
  pub authorize-Keeps :
      (principal : Principal) (model operation : String) (n : ℕ)
      → Keeps (authorize (memory_gateway k) principal model operation n)
  unfolding authorize
  authorize-Keeps principal model operation n w = ground arith

  module _ (index_text : ℕ → String) (request_id : Uuid) (principal : Principal) where
    module _ (inspect : Inspect Z) where
      -- The state after a call of the enforcer.
      abbrev after :
          String → InspectionContent → MemoryWorld Decimal C P Z → MemoryWorld Decimal C P Z
      after stage content w =
          (inspect_one (memory_gateway k) index_text inspect request_id principal stage content w).1

      inspect_instructions-Keeps :
          (i : ℕ) (is : List GatewayInstruction)
          → Keeps
              (inspect_instructions (memory_gateway k) index_text inspect request_id principal i is)
      unfolding inspect_instructions
      inspect_instructions-Keeps i [] w = refl
      inspect_instructions-Keeps i (m ∷ ms) w = ground (
        arith,
        inspect_instructions-Keeps (suc i) ms
            (after ("llm_instruction:" ++ index_text i) (prompt_text m.content) w),
      )

      inspect_tools-Keeps :
          (codec : Codec) (i : ℕ) (ts : List ToolDefinition)
          → Keeps
              (inspect_tools (memory_gateway k) index_text inspect request_id principal codec i ts)
      unfolding inspect_tools
      inspect_tools-Keeps codec i [] w = refl
      inspect_tools-Keeps codec i (t ∷ ts) w = elim (Option-cases (codec.tool_to_value t)) [
        | inl bad ↦ ground (arith, bad)
        | inr value ↦ ground (
          arith,
          value.1,
          inspect_tools-Keeps codec (suc i) ts
              (after ("llm_tool_definition:" ++ index_text i) (structured_input value.0) w),
        )
      ]

      inspect_format-Keeps :
          (codec : Codec) (format : Option ResponseFormat)
          → Keeps (
              inspect_format
                (memory_gateway k)
                index_text
                inspect
                request_id
                principal
                codec
                format)
      unfolding inspect_format
      inspect_format-Keeps codec none w = refl
      inspect_format-Keeps codec (some format) w = ground arith

      inspect_inputs-Keeps :
          (i : ℕ) (inputs : List String)
          → Keeps
              (inspect_inputs (memory_gateway k) index_text inspect request_id principal i inputs)
      unfolding inspect_inputs
      inspect_inputs-Keeps i [] w = refl
      inspect_inputs-Keeps i (input ∷ inputs) w = ground (
        arith,
        inspect_inputs-Keeps (suc i) inputs
            (after ("embedding_input:" ++ index_text i) (prompt_text input) w),
      )

    pub inspect_embeddings-Keeps :
        (request : GatewayEmbeddingRequest)
        → Keeps (inspect_embeddings (memory_gateway k) index_text request_id principal request)
    unfolding inspect_embeddings
    inspect_embeddings-Keeps request w = elim (Option-cases k.enforcer) [
      | inl off ↦ ground (arith, off)
      | inr on ↦ ground (arith, on.1, inspect_inputs-Keeps on.0.inspect 0 request.inputs w)
    ]

    pub output_security-Keeps :
        Keeps (output_security (memory_gateway k) index_text request_id principal)
    unfolding output_security
    output_security-Keeps w = ground arith

    pub inspect_inference-Keeps :
        (codec : Codec) (request : GatewayInferenceRequest F32)
        → Keeps (inspect_inference (memory_gateway k) index_text request_id principal codec request)
    unfolding inspect_inference
    inspect_inference-Keeps codec request w = elim (Option-cases k.enforcer) [
      | inl off ↦ ground (arith, off)
      | inr on ↦
          let g = memory_gateway k in
          let first =
            inspect_instructions g index_text on.0.inspect request_id principal 0
              request.instructions w in
          let second =
            inspect_tools g index_text on.0.inspect request_id principal codec 0 request.tools
              first.1 in
          let third =
            inspect_format g index_text on.0.inspect request_id principal codec
              request.response_format second.1 in
          ground (
            arith,
            on.1,
            inspect_instructions-Keeps on.0.inspect 0 request.instructions w,
            inspect_tools-Keeps on.0.inspect codec 0 request.tools first.1,
            inspect_format-Keeps on.0.inspect codec request.response_format second.1,
            inspect_messages-reservations k index_text request_id principal request.messages
                third.1,
          )
    ]
