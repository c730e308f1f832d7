-- ===== src/Security.antt =====
-- crates/gateway-security/src: the errors, the policies and their restriction, the decision on
-- findings, redaction, and the enforcer around the pipeline.
pub mod Errors
pub mod Policy
pub mod Decision
pub mod Redaction
pub mod Rules
pub mod Enforcer
