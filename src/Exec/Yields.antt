-- ===== src/Exec/Yields.antt =====
-- What is known of the result of code that succeeds.
use go_wallib.Base.{◌≡◌, inl, inr}
use mathlib.Core.Path.{subst}
use go_wallib.Errors.{Error, Result, ok, err, Result-cases}
use go_wallib.Exec.{Exec, pure, raise, on_error, ◌>>=◌}

pub record Yields {ℓ} {S A : Type ℓ} (Q : A → Type ℓ) (m : Exec S A) : Type ℓ where
  pub holds : (s : S) (a : A) → (m s).0 ≡ ok a → Q a

module _ {ℓ} {S A : Type ℓ} where
  kept_by_error :
      (r : Result A) (c : Exec S (Unit {ℓ})) (s : S) (a : A)
      → (elim r as (λ _. Result A × S) [ ok a ↦ (ok a, s) | err e ↦ (err e, (c s).1) ]).0 ≡ ok a
      → r ≡ ok a
  kept_by_error (ok b) c s a e = e
  kept_by_error (err x) c s a e = e

module _ {ℓ} {S A : Type ℓ} {Q : A → Type ℓ} where
  pub Yields-pure : (a : A) → Q a → Yields {S = S} Q (pure a)
  unfolding pure
  Yields-pure a q = record { holds = λ s b e. subst Q (cc e) q }

  pub Yields-raise : (e : Error) → Yields {S = S} Q (raise e)
  unfolding raise
  Yields-raise x = record { holds = λ s b e. absurd (cc e) }

  pub Yields-on_error :
      (m : Exec S A) (c : Exec S (Unit {ℓ})) → Yields Q m → Yields Q (on_error m c)
  unfolding on_error
  Yields-on_error m c y = record {
    holds = λ s a e. y.holds s a (kept_by_error (m s).0 c (m s).1 a e);
  }

module _ {ℓ} {S A B : Type ℓ} {P : A → Type ℓ} {Q : B → Type ℓ} where
  pub Yields-bind :
      (m : Exec S A) (f : A → Exec S B)
      → Yields P m
      → ((a : A) → P a → Yields Q (f a))
      → Yields Q (m >>= f)
  unfolding ◌>>=◌
  Yields-bind m f ym yf = record {
    holds = λ s b e. elim (Result-cases (m s).0) [
      | inl (a, r) ↦ (yf a (ym.holds s a r)).holds (m s).1 b (rw r at e)
      | inr (x, r) ↦ absurd (cc (rw r at e))
    ];
  }

module _ {ℓ} {S A : Type ℓ} where
  -- Nothing.
  pub Yields-any : (m : Exec S A) → Yields (λ _. Unit {ℓ}) m
  Yields-any m = record { holds = λ s a e. tt }
