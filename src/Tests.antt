-- ===== src/Tests.antt =====
-- The theorems on the gateway at concrete inputs.
mod Data
mod Core
mod Policies
mod Stores
mod Inspections
mod Approvals
mod Streams
mod Tools
mod Calls
mod Keys
