-- ===== src/Exec/Preserves.antt =====
-- Invariants of code, kept on success and on error alike: one rule for each way to put code together.
use go_wallib.Base.{Bool, true, false, if◌then◌else◌}
use go_wallib.Errors.{Error, Result, ok, err}
use go_wallib.Exec.{Exec, pure, raise, gets, lift, discard, on_error, finally, ◌>>=◌, continue}

pub record Preserves {ℓ} {S A : Type ℓ} (P : S → Type ℓ) (m : Exec S A) : Type ℓ where
  pub holds : (s : S) → P s → P (m s).1

module _ {ℓ} {S A : Type ℓ} {P : S → Type ℓ} where
  pub Preserves-pure : (a : A) → Preserves P (pure a)
  unfolding pure
  Preserves-pure a = record { holds = λ s p. p }

  pub Preserves-raise : (e : Error) → Preserves P (raise {A = A} e)
  unfolding raise
  Preserves-raise e = record { holds = λ s p. p }

  pub Preserves-gets : (f : S → A) → Preserves P (gets f)
  unfolding gets
  Preserves-gets f = record { holds = λ s p. p }

  pub Preserves-lift : (r : Result A) → Preserves P (lift r)
  unfolding lift
  Preserves-lift r = record { holds = λ s p. p }

  pub Preserves-discard : (m : Exec S A) → Preserves P m → Preserves P (discard m)
  unfolding discard
  Preserves-discard m h = record { holds = h.holds }

  pub Preserves-finally :
      (m : Exec S A) (c : Exec S (Unit {ℓ}))
      → Preserves P m
      → Preserves P c
      → Preserves P (finally m c)
  unfolding finally
  Preserves-finally m c hm hc = record { holds = λ s p. hc.holds (m s).1 (hm.holds s p) }

  pub Preserves-if :
      (b : Bool) (m n : Exec S A) → Preserves P m → Preserves P n → Preserves P (if b then m else n)
  Preserves-if true m n hm hn = hm
  Preserves-if false m n hm hn = hn

  after_error :
      (r : Result A) (c : Exec S (Unit {ℓ})) (s : S)
      → Preserves P c
      → P s
      → P (elim r as (λ _. Result A × S) [ ok a ↦ (ok a, s) | err e ↦ (err e, (c s).1) ]).1
  after_error (ok a) c s hc p = p
  after_error (err e) c s hc p = hc.holds s p

  pub Preserves-on_error :
      (m : Exec S A) (c : Exec S (Unit {ℓ}))
      → Preserves P m
      → Preserves P c
      → Preserves P (on_error m c)
  unfolding on_error
  Preserves-on_error m c hm hc = record {
    holds = λ s p. after_error (m s).0 c (m s).1 hc (hm.holds s p);
  }

module _ {ℓ} {S A B : Type ℓ} {P : S → Type ℓ} where
  after_result :
      (r : Result A) (f : A → Exec S B) (s : S)
      → ((a : A) → Preserves P (f a))
      → P s
      → P (continue r f s).1
  after_result (ok a) f s h p = (h a).holds s p
  after_result (err e) f s h p = p

  pub Preserves-bind :
      (m : Exec S A) (f : A → Exec S B)
      → Preserves P m
      → ((a : A) → Preserves P (f a))
      → Preserves P (m >>= f)
  unfolding ◌>>=◌
  Preserves-bind m f hm hf = record {
    holds = λ s p. after_result (m s).0 f (m s).1 hf (hm.holds s p);
  }

pub ruleset preserving = (
  Preserves-pure, Preserves-raise, Preserves-gets, Preserves-lift, Preserves-discard,
  Preserves-finally, Preserves-if, Preserves-on_error, Preserves-bind,
)
