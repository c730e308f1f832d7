-- ===== src/Approval/Text.antt =====
-- The methods of `str` that crates/gateway-approval/src/service.rs calls, by characters.
use Prim.Native.Nat.{ℕ, zero, suc}
use Prim.Native.Char.{Char}
use Prim.Native.String.{String, [], ◌∷◌}
use mathlib.Core.Bool.{Bool, true, ◌&&◌}

-- `text.trim().is_empty()`, with `is_whitespace` that of `char`
unfoldable pub is_blank : (Char → Bool) → String → Bool
is_blank is_whitespace [] = true
is_blank is_whitespace (c ∷ text) = is_whitespace c && is_blank is_whitespace text

-- `text.chars().take(n).collect()`
unfoldable pub take_chars : ℕ → String → String
take_chars zero text = []
take_chars (suc n) [] = []
take_chars (suc n) (c ∷ text) = c ∷ take_chars n text
