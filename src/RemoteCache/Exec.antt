-- ===== src/RemoteCache/Exec.antt =====
-- Methods that change an object and may raise: what was written before a raise stays written.
use tine.Base.{◌≡◌, refl, ◌⊎◌, inl, inr}
use tine.RemoteCache.Outcome.{Raised, Result, ok, err}

abbrev pub Exec {ℓ} : Type ℓ → Type ℓ → Type ℓ
Exec S A = S → Result A × S

module _ {ℓ} {S A : Type ℓ} where
  abbrev pub pure : A → Exec S A
  pure a s = (ok a, s)

  abbrev pub raise : Raised → Exec S A
  raise e s = (err e, s)

  abbrev pub lift : Result A → Exec S A
  lift r s = (r, s)

module _ {ℓ} {S A B : Type ℓ} where
  abbrev pub continue : Result A → (A → Exec S B) → Exec S B
  continue (ok a) f s = f a s
  continue (err e) f s = (err e, s)

  infixl 5 ◌>>=◌
  abbrev pub ◌>>=◌ : Exec S A → (A → Exec S B) → Exec S B
  ◌>>=◌ m f s = continue (m s).0 f (m s).1

  -- A block that returned did so from a step that returned.
  pub continue-eq-ok :
      (r : Result A) (f : A → Exec S B) (s : S) {b : B}
      → (continue r f s).0 ≡ ok b
      → (a : A) × (r ≡ ok a) × ((f a s).0 ≡ ok b)
  continue-eq-ok (ok a) f s h = (a, refl, h)
  continue-eq-ok (err e) f s h = cc

-- `try: m except ...: h`, where `h` raises again what it does not catch.
module _ {S A : Type 0} where
  abbrev pub handled : Result A → (Raised → Exec S A) → Exec S A
  handled (ok a) h s = (ok a, s)
  handled (err e) h s = h e s

  abbrev pub handle : Exec S A → (Raised → Exec S A) → Exec S A
  handle m h s = handled (m s).0 h (m s).1

  -- What a block with its handler returned, the block returned or the handler did.
  pub handled-eq-ok :
      (r : Result A) (h : Raised → Exec S A) (s : S) {a : A}
      → (handled r h s).0 ≡ ok a
      → (r ≡ ok a) ⊎ ((e : Raised) × (r ≡ err e) × ((h e s).0 ≡ ok a))
  handled-eq-ok (ok x) h s e = inl e
  handled-eq-ok (err x) h s e = inr (x, refl, e)

module _ {S : Type 0} {B : Type 0} where
  infixl 5 ◌>>◌
  abbrev pub ◌>>◌ : Exec S (Unit {0}) → Exec S B → Exec S B
  m >> k = m >>= λ nothing. k
