-- ===== src/Types/Inference.antt =====
-- Inference requests, responses and routes (crates/gateway-types/src/lib.rs). `F32` stands for f32.
use Prim.Native.String.{len}
use tuenel.Prelude.{ℕ, String, Bool, Option, none, some, List, map}
use tuenel.Types.Json.{Value}
use tuenel.Prelude.Words.{sum_u64, wrapping_add}

pub data MessageRole : Type 0 where
  system user assistant : MessageRole

pub record GatewayMessage : Type 0 where
  pub role : MessageRole
  pub content : String

pub record GenerationParameters (F32 : Type 0) : Type 0 where
  pub temperature : Option F32
  pub top_p : Option F32
  pub max_output_tokens : ℕ
  pub max_output_tokens_explicit : Bool
  pub stop : List String

pub record GatewayRequest (F32 : Type 0) : Type 0 where
  pub model : String
  pub messages : List GatewayMessage
  pub stream : Bool
  pub stream_include_usage : Bool
  pub generation : GenerationParameters F32

-- `message.content.len() as u64 + 8`, the length in bytes
abbrev pub message_bound : GatewayMessage → ℕ
message_bound m = wrapping_add (len m.content) 8

unfoldable pub prompt_token_upper_bound : {F32 : Type 0} → GatewayRequest F32 → ℕ
prompt_token_upper_bound r = sum_u64 (map message_bound r.messages)

pub record TokenUsage : Type 0 where
  pub prompt_tokens : ℕ
  pub completion_tokens : ℕ
  pub estimated : Bool

unfoldable pub total_tokens : TokenUsage → ℕ
total_tokens u = wrapping_add u.prompt_tokens u.completion_tokens

pub record GatewayResponse : Type 0 where
  pub id : String
  pub model : String
  pub content : String
  pub finish_reason : Option String
  pub usage : TokenUsage

pub data GatewayStreamEvent : Type 0 where
  started : String → GatewayStreamEvent
  delta : String → GatewayStreamEvent
  finished : Option String → GatewayStreamEvent
  usage : TokenUsage → GatewayStreamEvent

pub record ModelRoute : Type 0 where
  pub provider : String
  pub requested_model : String
  pub upstream_model : String

abbrev pub RequestMetadata : Type 0
RequestMetadata = List (String × String)

pub data InstructionRole : Type 0 where
  system_role developer_role : InstructionRole

pub record GatewayInstruction : Type 0 where
  pub content : String
  pub role : InstructionRole

pub record ToolDefinition : Type 0 where
  pub kind : String
  pub name : String
  pub description : Option String
  pub parameters : Value

pub data ToolChoice : Type 0 where
  auto_choice : ToolChoice
  no_choice : ToolChoice
  function_choice : String → ToolChoice

pub record ResponseFormat : Type 0 where
  pub kind : String
  pub schema : Option Value

pub record GatewayInferenceRequest (F32 : Type 0) : Type 0 where
  pub requested_model : String
  pub instructions : List GatewayInstruction
  pub messages : List GatewayMessage
  pub tools : List ToolDefinition
  pub tool_choice : Option ToolChoice
  pub response_format : Option ResponseFormat
  pub generation : GenerationParameters F32
  pub stream : Bool
  pub metadata : RequestMetadata

abbrev pub instruction_bound : GatewayInstruction → ℕ
instruction_bound i = wrapping_add (len i.content) 8

-- `serde_json::to_vec(item).map_or(0, |value| value.len() as u64 + 8)`
abbrev pub tool_bound : (ToolDefinition → Option ℕ) → ToolDefinition → ℕ
tool_bound encoded_len t = elim (encoded_len t) [ none ↦ 0 | some n ↦ wrapping_add n 8 ]

-- GatewayInferenceRequest::prompt_token_upper_bound
unfoldable pub inference_token_upper_bound :
    {F32 : Type 0} → (ToolDefinition → Option ℕ) → GatewayInferenceRequest F32 → ℕ
inference_token_upper_bound encoded_len r =
    wrapping_add
      (wrapping_add (sum_u64 (map instruction_bound r.instructions))
        (sum_u64 (map message_bound r.messages)))
      (sum_u64 (map (tool_bound encoded_len) r.tools))

pub record GatewayEmbeddingRequest : Type 0 where
  pub requested_model : String
  pub inputs : List String
  pub dimensions : Option ℕ
  pub metadata : RequestMetadata

pub record ProviderUsage : Type 0 where
  pub input_tokens : ℕ
  pub output_tokens : ℕ
  pub cached_input_tokens : ℕ

pub record GatewayEmbeddingResponse (F32 : Type 0) : Type 0 where
  pub embeddings : List (List F32)
  pub model : String
  pub upstream_model : String
  pub usage : ProviderUsage
  pub provider_metadata : RequestMetadata
