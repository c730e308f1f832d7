-- ===== src/Types/Decimal.antt =====
-- The operations of the crate rust_decimal that the program calls, as a parameter.
use tuenel.Prelude.{ℕ}

pub record DecimalOps (Decimal : Type 0) : Type 0 where
  pub zero_value : Decimal
  pub one : Decimal
  pub from_u64 : ℕ → Decimal
  pub add : Decimal → Decimal → Decimal
  pub mul : Decimal → Decimal → Decimal
  pub div : Decimal → Decimal → Decimal
  pub round_dp : Decimal → ℕ → Decimal
