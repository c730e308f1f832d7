-- ===== src/Providers/Boundary.antt =====
-- crates/gateway-providers/src/lib.rs: the trait of a provider as a record over the state `P` of the
-- providers. A call is under the gateway's `timeout`: `none` where that expires. A stream is the
-- list of the items that it yields.
use tuenel.Prelude.{String, Option, List, Result}
use tuenel.Types.Identity.{Uuid}
use tuenel.Types.Inference.{
  GatewayRequest, GatewayInferenceRequest, GatewayEmbeddingRequest, GatewayEmbeddingResponse,
  GatewayResponse, GatewayStreamEvent,
}
use tuenel.Providers.{ProviderError}

pub record ProviderContext : Type 0 where
  pub request_id : Uuid
  pub upstream_model : String

abbrev pub GatewayStream : Type 0
GatewayStream = List (Result ProviderError GatewayStreamEvent)

-- A call under `timeout`.
abbrev pub Timed : Type 0 → Type 0 → Type 0
Timed P A = P → Option (Result ProviderError A) × P

pub record ModelProvider (F32 P : Type 0) : Type 0 where
  pub execute : ProviderContext → GatewayRequest F32 → Timed P GatewayResponse
  pub stream : ProviderContext → GatewayRequest F32 → Timed P GatewayStream
  pub infer : ProviderContext → GatewayInferenceRequest F32 → Timed P GatewayResponse
  pub stream_infer : ProviderContext → GatewayInferenceRequest F32 → Timed P GatewayStream
  pub embed : ProviderContext → GatewayEmbeddingRequest → Timed P (GatewayEmbeddingResponse F32)
