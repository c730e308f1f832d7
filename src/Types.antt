-- ===== src/Types.antt =====
-- crates/gateway-types/src/lib.rs: the domain types, one child for each part. `Uuid` and
-- `DateTime<Utc>` of the crates uuid and chrono are numbers (the 128 bits, the ticks of a clock),
-- as the program only compares them and adds durations. `Decimal`, `f32` and other foreign types are parameters.
pub mod Identity
pub mod Inference
pub mod Usage
pub mod Json
pub mod Mcp
pub mod Security
pub mod Approval
pub mod Decimal
pub mod Float
