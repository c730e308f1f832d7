-- ===== src/Prelude/Int.antt =====
-- Signed integers as far as the route ranks need them: order and maximum.
use Prim.Native.Nat.{ℕ}
use mathlib.Core.Path.{◌≡◌}
use mathlib.Core.Logic.{◌↔◌}
use native.Mathlib.Omega.{arith}
use mathlib.Core.Bool.{Bool, true, false}
use tuenel.Prelude.Tests.{leb, if◌then◌else◌, nat_beq}

-- `negsuc n` is -(n + 1).
pub data ℤ : Type 0 where
  pos : ℕ → ℤ
  negsuc : ℕ → ℤ

abbrev pub int_leb : ℤ → ℤ → Bool
int_leb (pos a) (pos b) = leb a b
int_leb (pos a) (negsuc b) = false
int_leb (negsuc a) (pos b) = true
int_leb (negsuc a) (negsuc b) = leb b a

abbrev pub int_beq : ℤ → ℤ → Bool
int_beq (pos a) (pos b) = nat_beq a b
int_beq (pos a) (negsuc b) = false
int_beq (negsuc a) (pos b) = false
int_beq (negsuc a) (negsuc b) = nat_beq a b

abbrev pub is_negative : ℤ → Bool
is_negative (pos a) = false
is_negative (negsuc a) = true

-- Ord::max
abbrev pub int_max : ℤ → ℤ → ℤ
int_max a b = if int_leb a b then b else a

pub int_leb_refl : (a : ℤ) → int_leb a a ≡ true
int_leb_refl a = ground arith

pub int_leb_trans : (a b c : ℤ) → int_leb a b ≡ true → int_leb b c ≡ true → int_leb a c ≡ true
int_leb_trans a b c h k = ground arith

pub int_max_left : (a b : ℤ) → int_leb a (int_max a b) ≡ true
int_max_left a b = ground arith

pub int_max_right : (a b : ℤ) → int_leb b (int_max a b) ≡ true
int_max_right a b = ground arith

pub int_beq_refl : (a : ℤ) → int_beq a a ≡ true
int_beq_refl a = ground arith

pub int_beq_iff : (a b : ℤ) → (int_beq a b ≡ true) ↔ (a ≡ b)
int_beq_iff a b = ground arith
