-- ===== src/Prelude/Exec.antt =====
-- Actions on a state that may fail. What was written before a failure stays written.
pub mod Keeps
use mathlib.Core.Path.{◌≡◌, refl, ap}
use theatre.Prelude.Results.{Failure, Result, ok, err, wrapped}
use Prim.Native.String.{String}

abbrev pub Exec : Type 0 → Type 0 → Type 0
Exec S A = S → Result A × S

module _ {S A : Type 0} where
  abbrev pub pure : A → Exec S A
  pure a s = (ok a, s)

  abbrev pub raise : Failure → Exec S A
  raise e s = (err e, s)

  abbrev pub lift : Result A → Exec S A
  lift r s = (r, s)

  -- `errors.Wrap` on the error of an action.
  abbrev pub wrapping : String → Exec S A → Exec S A
  wrapping m f s = let (r, s') = f s in (wrapped m r, s')

  -- A call whose error the code looks at, or drops.
  abbrev pub attempt : Exec S A → Exec S (Result A)
  attempt f s = let (r, s') = f s in (ok r, s')

module _ {S A B : Type 0} where
  abbrev continue : Result A → (A → Exec S B) → Exec S B
  continue (ok a) f s = f a s
  continue (err e) f s = (err e, s)

  infixl 5 ◌>>=◌
  abbrev pub ◌>>=◌ : Exec S A → (A → Exec S B) → Exec S B
  ◌>>=◌ action next before = let (answer, between) = action before in continue answer next between

  continue-eq-ok :
      (r : Result A) (f : A → Exec S B) {s t : S} {b : B}
      → continue r f s ≡ (ok b, t)
      → (a : A) × (r ≡ ok a) × (f a s ≡ (ok b, t))
  continue-eq-ok (ok a) f h = (a, refl, h)
  continue-eq-ok (err e) f h = cc

  -- Inversion of a successful step.
  pub >>=-eq-ok :
      (m : Exec S A) (f : A → Exec S B) (s : S) {t : S} {b : B}
      → (m >>= f) s ≡ (ok b, t)
      → (a : A) × ((m s).0 ≡ ok a) × (f a (m s).1 ≡ (ok b, t))
  >>=-eq-ok m f s h = continue-eq-ok (m s).0 f h

-- An action that succeeds under `errors.Wrap` succeeds without it.
wrapped_pair :
    {S A : Type 0} (m : String) (answer : Result A × S) {a : A} {t : S}
    → ◌≡◌ {A = Result A × S} (wrapped m answer.0, answer.1) (ok a, t)
    → answer ≡ (ok a, t)
wrapped_pair m (ok b, s) h = cc
wrapped_pair m (err e, s) h = cc

pub wrapping-eq-ok :
    {S A : Type 0} (m : String) (f : Exec S A) (s : S) {a : A} {t : S}
    → wrapping m f s ≡ (ok a, t)
    → f s ≡ (ok a, t)
wrapping-eq-ok m f s h = wrapped_pair m (f s) h

pub wrapping-eq-ok_result :
    {S A : Type 0} (m : String) (f : Exec S A) (s : S) {a : A}
    → (wrapping m f s).0 ≡ ok a
    → f s ≡ (ok a, (wrapping m f s).1)
wrapping-eq-ok_result m f s h = wrapped_pair m (f s) (ap (λ r. (r, (f s).1)) h)
