-- ===== src/Security/Errors.antt =====
-- crates/gateway-security/src/errors.rs
pub data SecurityError : Type 0 where
  inspection_failed : SecurityError
  blocked : SecurityError
  prompt_injection_detected : SecurityError
  secret_exposure_detected : SecurityError
  sensitive_data_detected : SecurityError
  approval_required : SecurityError
  content_too_large : SecurityError
  invalid_pattern : SecurityError
