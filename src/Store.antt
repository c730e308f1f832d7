-- ===== src/Store.antt =====
-- The persistence boundary (`Boundary`, crates/gateway-store/src/lib.rs) and the in-memory store
-- that implements it (`Memory`, stores/store-memory/src/lib.rs).
pub mod Boundary
pub mod Memory
