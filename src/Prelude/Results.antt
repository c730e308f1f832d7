-- ===== src/Prelude/Results.antt =====
-- `Result`, and actions that change a state and may fail: the state comes back beside the error.
use mathlib.Core.Path.{◌≡◌, refl, sym, ap, subst, ◌∙◌}
use mathlib.Core.Logic.{◌⊎◌, inl, inr}
use mathlib.Core.Bool.{Bool, true, false}
use mathlib.Core.Option.{Option, none, some}

pub data Result {ℓ} (E A : Type ℓ) : Type ℓ where
  ok : A → Result E A
  err : E → Result E A

module _ {ℓ} {E A : Type ℓ} where
  -- Option::ok_or
  abbrev pub ok_or : Option A → E → Result E A
  ok_or none e = err e
  ok_or (some a) e = ok a

  abbrev pub is_ok : Result E A → Bool
  is_ok (ok a) = true
  is_ok (err e) = false

  -- Result::map_err, to an error type of the same universe
  abbrev pub map_err : {F : Type ℓ} → (E → F) → Result E A → Result F A
  map_err f (ok a) = ok a
  map_err f (err e) = err (f e)

abbrev pub Exec {ℓ} : Type ℓ → Type ℓ → Type ℓ → Type ℓ
Exec S E A = S → Result E A × S

module _ {ℓ} {S E A : Type ℓ} where
  abbrev pub pure : A → Exec S E A
  pure a s = (ok a, s)

  abbrev pub raise : E → Exec S E A
  raise e s = (err e, s)

  abbrev pub lift : Result E A → Exec S E A
  lift r s = (r, s)

module _ {ℓ} {S E A B : Type ℓ} where
  abbrev pub continue : Result E A → (A → Exec S E B) → Exec S E B
  continue (ok a) f s = f a s
  continue (err e) f s = (err e, s)

  infixl 10 ◌>>=◌ ◌>>◌
  abbrev pub ◌>>=◌ : Exec S E A → (A → Exec S E B) → Exec S E B
  ◌>>=◌ m f s = continue (m s).0 f (m s).1

  abbrev pub ◌>>◌ : Exec S E A → Exec S E B → Exec S E B
  m >> n = m >>= λ _. n

pub Result-cases {ℓ} :
    {E A : Type ℓ} (r : Result E A) → ((a : A) × (r ≡ ok a)) ⊎ ((e : E) × (r ≡ err e))
Result-cases (ok a) = inl (a, refl)
Result-cases (err e) = inr (e, refl)

err-ok {ℓ} : {E B : Type ℓ} (x : E) (b : B) → err x ≡ ok b → ⊥
err-ok x b p = cc

module _ {ℓ} {S E A B : Type ℓ} where
  -- A chain that succeeds has succeeded at its first step, and goes on from there.
  pub bind_ok :
      (f : Exec S E A) (next : A → Exec S E B) (s : S) (b : B)
      → ((f >>= next) s).0 ≡ ok b
      → (a : A) × ((f s).0 ≡ ok a) × ((f >>= next) s ≡ next a (f s).1)
  bind_ok f next s b h = elim (Result-cases (f s).0) [
    | inl done ↦ (done.0, done.1, ap (λ x. continue x next (f s).1) done.1)
    | inr failed ↦
        absurd (err-ok failed.0 b (sym (ap (λ y. (continue y next (f s).1).0) failed.1) ∙ h))
  ]

  -- What the rest of a chain that succeeds brings about holds after the chain.
  pub after_ok {κ} :
      (P : S → Type κ) (f : Exec S E A) (next : A → Exec S E B) (s : S) (b : B)
      → ((f >>= next) s).0 ≡ ok b
      → ((a : A) → (f s).0 ≡ ok a → (next a (f s).1).0 ≡ ok b → P (next a (f s).1).1)
      → P ((f >>= next) s).1
  after_ok P f next s b h then_P =
      let split = bind_ok f next s b h in
      subst (λ r. P r.1) (sym split.2) (then_P split.0 split.1 (sym (ap (λ r. r.0) split.2) ∙ h))
