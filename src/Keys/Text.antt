-- ===== src/Keys/Text.antt =====
-- The methods of `str` by which `parse_key` takes a key apart (crates/gateway-keys/src/lib.rs), by
-- characters: an index inside a character yields none.
use Prim.Native.Char.{Char, code, len_utf8}
use Prim.Native.Nat.{ℕ, zero, suc, ◌+◌, ◌-◌}
use Prim.Native.String.{String, [], ◌∷◌, ◌++◌, len}
use Prim.Native.String.len
use Prim.Native.String.append
use mathlib.Core.Path.{◌≡◌, ap, ◌∙◌}
use text.Mathlib.TextPositions.{len_utf8-pos}
use mathlib.Core.Option.{Option, none, some}
use native.Mathlib.Omega.{arith}
use tuenel.Prelude.{nat_beq, nat_beq_iff, leb, if◌then◌else◌}

-- str::strip_prefix
unfoldable pub strip : String → String → Option String
strip [] text = some text
strip (c ∷ prefix) [] = none
strip (c ∷ prefix) (d ∷ text) =
    let rest = strip prefix text in if nat_beq (code c) (code d) then rest else none

-- A character before the first part of a split.
abbrev pub with_head : Char → Option (String × String) → Option (String × String)
with_head c none = none
with_head c (some (first, second)) = some (c ∷ first, second)

-- `(text.get(..n), text.get(n..))`
unfoldable pub split_at : ℕ → String → Option (String × String)
split_at zero text = some ([], text)
split_at (suc n) [] = none
split_at (suc n) (c ∷ text) =
    let rest = split_at (suc n - len_utf8 c) text in
    if leb (len_utf8 c) (suc n) then with_head c rest else none

pub strip-append : (prefix text : String) → strip prefix (prefix ++ text) ≡ some text
unfolding strip
strip-append [] text = ap some (append.nil text)
strip-append (c ∷ prefix) text =
    ap (strip (c ∷ prefix)) (append.cons c prefix text)
    ∙ ground (arith, nat_beq_iff (code c) (code c), strip-append prefix text)

split_cons :
    (c : Char) (n : ℕ) (p text rest : String)
    → split_at n text ≡ some (p, rest)
    → split_at (len_utf8 c + n) (c ∷ text) ≡ some (c ∷ p, rest)
unfolding split_at
split_cons c n p text rest h =
    let k = len_utf8-pos c in
    let whole : len_utf8 c + n ≡ suc (k.0 + n) = omega (arith, k.1) in
    let less : suc (k.0 + n) - len_utf8 c ≡ n = omega (arith, k.1) in
    ap (λ m. split_at m (c ∷ text)) whole ∙ ground (arith, k.1, less, h)

pub split_at-append : (p text : String) → split_at (len p) (p ++ text) ≡ some (p, text)
split_at-append [] text =
    ap (λ n. split_at n ([] ++ text)) len.nil
    ∙ (unfold split_at in ap (λ t. some ([], t)) (append.nil text))
split_at-append (c ∷ p) text =
    ap (λ n. split_at n ((c ∷ p) ++ text)) (len.cons c p)
    ∙ ap (split_at (len_utf8 c + len p)) (append.cons c p text)
    ∙ split_cons c (len p) p (p ++ text) text (split_at-append p text)
