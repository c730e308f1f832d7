-- ===== src/Prelude/Maps.antt =====
-- A `HashMap` as a list of entries, at most one for each key. Its iteration order, which Rust
-- leaves open, is the order of insertion here.
use mathlib.Core.Path.{◌≡◌, refl}
use mathlib.Core.Bool.{Bool, true, false}
use mathlib.Core.Option.{Option, none, some}
use mathlib.Core.List.{List, [], ◌∷◌}
use native.Mathlib.Omega.{arith}
use tuenel.Prelude.Tests.{Eq, ◌==◌, if◌then◌else◌}

abbrev pub HashMap {ℓ} : Type ℓ → Type ℓ → Type ℓ
HashMap K V = List (K × V)

module _ {ℓ} {K V : Type ℓ} ⦃e : Eq K⦄ where
  -- HashMap::get
  unfoldable pub get : HashMap K V → K → Option V
  get [] k = none
  get ((j, v) ∷ m) k = if j == k then some v else get m k

  -- HashMap::insert
  unfoldable pub insert : HashMap K V → K → V → HashMap K V
  insert [] k v = (k, v) ∷ []
  insert ((j, w) ∷ m) k v = if j == k then (k, v) ∷ m else (j, w) ∷ insert m k v

  -- HashMap::remove, the map that is left
  unfoldable pub remove : HashMap K V → K → HashMap K V
  remove [] k = []
  remove ((j, w) ∷ m) k = let rest = remove m k in if j == k then rest else (j, w) ∷ rest

  -- HashMap::values
  unfoldable pub values : HashMap K V → List V
  values [] = []
  values ((j, w) ∷ m) = w ∷ values m

  -- HashMap::contains_key
  unfoldable pub contains_key : HashMap K V → K → Bool
  contains_key [] k = false
  contains_key ((j, w) ∷ m) k = if j == k then true else contains_key m k

  pub get-insert :
      (m : HashMap K V) (k : K) (v : V) (j : K)
      → get (insert m k v) j ≡ (if k == j then some v else get m j)
  unfolding get insert
  get-insert [] k v j = refl
  get-insert ((i, w) ∷ m) k v j =
      ground (arith, e.beq_iff i k, e.beq_iff i j, e.beq_iff k j, get-insert m k v j)

  pub get-remove :
      (m : HashMap K V) (k j : K) → get (remove m k) j ≡ (if k == j then none else get m j)
  unfolding get remove
  get-remove [] k j = ground arith
  get-remove ((i, w) ∷ m) k j =
      ground (arith, e.beq_iff i k, e.beq_iff i j, e.beq_iff k j, get-remove m k j)

  pub contains_key-get : (m : HashMap K V) (k : K) → contains_key m k ≡ false → get m k ≡ none
  unfolding get contains_key
  contains_key-get [] k h = refl
  contains_key-get ((i, w) ∷ m) k h = ground (arith, contains_key-get m k)

  -- What was inserted under a new key and removed again leaves no trace.
  pub remove-insert :
      (m : HashMap K V) (k : K) (v : V) → get m k ≡ none → remove (insert m k v) k ≡ m
  unfolding get insert remove
  remove-insert [] k v h = ground (arith, e.beq_iff k k)
  remove-insert ((i, w) ∷ m) k v h =
      ground (arith, e.beq_iff i k, e.beq_iff k k, remove-insert m k v)
