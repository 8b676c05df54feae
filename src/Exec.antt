-- ===== src/Exec.antt =====
-- Code that changes a state and may return an error. What was changed before the error stays changed.
pub mod Preserves
pub mod Yields
use go_wallib.Base.{◌≡◌, ap}
use go_wallib.Errors.{Error, Result, ok, err}

abbrev pub Exec {ℓ} : Type ℓ → Type ℓ → Type ℓ
Exec S A = S → Result A × S

module _ {ℓ} {S A : Type ℓ} where
  unfoldable pub pure : A → Exec S A
  pure a s = (ok a, s)

  unfoldable pub raise : Error → Exec S A
  raise e s = (err e, s)

  unfoldable pub gets : (S → A) → Exec S A
  gets f s = (ok (f s), s)

  unfoldable pub lift : Result A → Exec S A
  lift r s = (r, s)

  -- `if err := m(); err != nil { cleanup; return err }`
  unfoldable pub on_error : Exec S A → Exec S (Unit {ℓ}) → Exec S A
  on_error m cleanup s =
      let (r, s') = m s in elim r [ ok a ↦ (ok a, s') | err e ↦ (err e, (cleanup s').1) ]

  -- `defer cleanup()`
  unfoldable pub finally : Exec S A → Exec S (Unit {ℓ}) → Exec S A
  finally m cleanup s = let (r, s') = m s in (r, (cleanup s').1)

  -- `_ = m()`: the error is dropped, the effect stays.
  unfoldable pub discard : Exec S A → Exec S (Unit {ℓ})
  discard m s = (ok tt, (m s).1)

module _ {ℓ} {S : Type ℓ} where
  unfoldable pub modify : (S → S) → Exec S (Unit {ℓ})
  modify f s = (ok tt, f s)

module _ {ℓ} {S A B : Type ℓ} where
  -- What follows a call: on a result the next step, on an error the way out.
  abbrev pub continue : Result A → (A → Exec S B) → S → Result B × S
  continue (ok a) f s = f a s
  continue (err e) f s = (err e, s)

  infixl 10 ◌>>=◌ ◌>>◌
  -- Opening this opens the actions above too.
  unfoldable pub ◌>>=◌ : Exec S A → (A → Exec S B) → Exec S B
  unfolding pure raise gets lift modify discard on_error finally
  ◌>>=◌ m f s = let (r, s') = m s in continue r f s'

  abbrev pub ◌>>◌ : Exec S A → Exec S B → Exec S B
  m >> n = m >>= λ _. n

  -- A call whose outcome is known.
  pub bind_run :
      (m : Exec S A) (f : A → Exec S B) (s s' : S) (r : Result A)
      → m s ≡ (r, s')
      → (m >>= f) s ≡ continue r f s'
  unfolding ◌>>=◌
  bind_run m f s s' r e = ap (λ p. continue p.0 f p.1) e
