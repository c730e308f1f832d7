-- ===== src/Types/Float.antt =====
-- The operations of f32 that the program uses, as a parameter.
use tuenel.Prelude.{ℕ}

pub record F32Ops (F32 : Type 0) : Type 0 where
  pub from_nat : ℕ → F32
  pub add : F32 → F32 → F32
  pub mul : F32 → F32 → F32
  pub min : F32 → F32 → F32
  pub clamp : F32 → F32 → F32 → F32
  -- `.round() as u8`
  pub round_u8 : F32 → ℕ
