-- ===== src/Core.antt =====
-- crates/gateway-core/src/lib.rs: the inference pipeline. `Service` has its parts and the steps of
-- one attempt, `Execute` the non-streaming completion, `Inputs` the inspection of other requests,
-- `Fallback` Responses requests and embeddings, `Streams` and `Inspected` streams and their tasks;
-- the other children prove things of them.
pub mod Service
pub mod Execute
pub mod Inputs
pub mod Fallback
pub mod Streams
pub mod Inspected
pub mod Settled
pub mod Kept
pub mod Operations
pub mod Ended
pub mod Tasks
pub mod Delivery
pub mod Counted
pub mod Consumed
pub mod Cleared
pub mod Memory
pub mod Attempts
pub mod Accounts
pub mod Ledger
pub mod Billing
pub mod Access
