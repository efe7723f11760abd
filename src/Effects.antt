-- ===== src/Effects.antt =====
-- Methods on `&mut self` that return a `Result`: what was written before an error stays written, so
-- the state comes back beside the error too.
use z1kv.Common.{◌≡◌, refl}
use z1kv.Errors.{Result, ok, err, Z1Error}

abbrev pub Exec {ℓ} : Type ℓ → Type ℓ → Type ℓ
Exec S A = S → S × Result A

module _ {ℓ} {S A B : Type ℓ} where
  abbrev pub continue : (A → Exec S B) → S × Result A → S × Result B
  continue f (s, ok a) = f a s
  continue f (s, err e) = (s, err e)

  infixl 5 ◌>>=◌ ◌>>◌
  abbrev pub ◌>>=◌ : Exec S A → (A → Exec S B) → Exec S B
  ◌>>=◌ m f s = continue f (m s)

  abbrev pub ◌>>◌ : Exec S A → Exec S B → Exec S B
  m >> n = m >>= λ _. n

module _ {ℓ} {S A : Type ℓ} where
  abbrev pub pure : A → Exec S A
  pure a s = (s, ok a)

  abbrev pub raise : Z1Error → Exec S A
  raise e s = (s, err e)

  abbrev pub lift : Result A → Exec S A
  lift r s = (s, r)

module _ {ℓ} {S A B : Type ℓ} where
  -- A chain that succeeds has succeeded at its first step.
  pub >>=-succeeds :
      (m : Exec S A) (f : A → Exec S B) (s s' : S) {b : B}
      → (m >>= f) s ≡ (s', ok b)
      → (a : A) × (t : S) × (m s ≡ (t, ok a)) × (f a t ≡ (s', ok b))
  >>=-succeeds m f s s' {b} h = split (m s) refl h
    where
      split :
          (p : S × Result A)
          → m s ≡ p
          → continue f p ≡ (s', ok b)
          → (a : A) × (t : S) × (m s ≡ (t, ok a)) × (f a t ≡ (s', ok b))
      split (t, ok a) e k = (a, t, e, k)
      split (t, err x) e k = absurd (cc)
