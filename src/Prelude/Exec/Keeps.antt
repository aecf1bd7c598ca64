-- ===== src/Prelude/Exec/Keeps.antt =====
-- Actions that leave a part of the state as it is, whether they succeed or fail.
use mathlib.Core.Path.{◌≡◌, refl, ◌∙◌}
use mathlib.Core.Bool.{Bool, true, false}
use Prim.Native.String.{String}
use theatre.Prelude.Tests.{if◌then◌else◌}
use theatre.Prelude.Results.{Result, ok, err, Failure}
use theatre.Prelude.Exec.{Exec, pure, raise, lift, wrapping, attempt, ◌>>=◌, continue}

-- What `view` sees of the state stays the same.
pub record Keeps {S V A : Type 0} (view : S → V) (m : Exec S A) : Type 0 where
  pub at : (s : S) → view (m s).1 ≡ view s

module _ {S V A : Type 0} (view : S → V) where
  -- An action that only reads the state.
  pub Keeps-read : (answer : S → Result A) → Keeps view (λ s. (answer s, s))
  Keeps-read answer = record { at = λ s. refl }

  pub Keeps-pure : (a : A) → Keeps view (pure a)
  Keeps-pure a = record { at = λ s. refl }

  pub Keeps-raise : (e : Failure) → Keeps view (raise {A = A} e)
  Keeps-raise e = record { at = λ s. refl }

  pub Keeps-lift : (r : Result A) → Keeps view (lift r)
  Keeps-lift r = record { at = λ s. refl }

  pub Keeps-wrapping : (m : String) (f : Exec S A) → Keeps view f → Keeps view (wrapping m f)
  Keeps-wrapping m f h = record { at = λ s. h.at s }

  pub Keeps-attempt : (f : Exec S A) → Keeps view f → Keeps view (attempt f)
  Keeps-attempt f h = record { at = λ s. h.at s }

  pub Keeps-if :
      (b : Bool) (f g : Exec S A) → Keeps view f → Keeps view g → Keeps view (if b then f else g)
  Keeps-if true f g hf hg = hf
  Keeps-if false f g hf hg = hg

module _ {S V A B : Type 0} (view : S → V) where
  continue-Keeps :
      (r : Result A) (f : A → Exec S B)
      → ((a : A) → Keeps view (f a))
      → (s : S) → view (continue r f s).1 ≡ view s
  continue-Keeps (ok a) f h s = (h a).at s
  continue-Keeps (err e) f h s = refl

  pub Keeps-bind :
      (m : Exec S A) (f : A → Exec S B)
      → Keeps view m
      → ((a : A) → Keeps view (f a))
      → Keeps view (m >>= f)
  Keeps-bind m f hm hf = record { at = λ s. continue-Keeps (m s).0 f hf (m s).1 ∙ hm.at s }

-- The same from one state, where what comes after an action may use what the action answered there.
pub record KeepsAt {S V A : Type 0} (view : S → V) (m : Exec S A) (s : S) : Type 0 where
  pub kept : view (m s).1 ≡ view s

pub KeepsAt-of_keeps :
    {S V A : Type 0} (view : S → V) (m : Exec S A) (s : S) → Keeps view m → KeepsAt view m s
KeepsAt-of_keeps view m s h = record { kept = h.at s }

module _ {S V A B : Type 0} (view : S → V) where
  continue-KeepsAt :
      (r : Result A) (f : A → Exec S B) (s : S)
      → ((a : A) → r ≡ ok a → KeepsAt view (f a) s)
      → view (continue r f s).1 ≡ view s
  continue-KeepsAt (ok a) f s h = (h a refl).kept
  continue-KeepsAt (err e) f s h = refl

  pub KeepsAt-bind :
      (m : Exec S A) (f : A → Exec S B) (s : S)
      → KeepsAt view m s
      → ((a : A) → (m s).0 ≡ ok a → KeepsAt view (f a) (m s).1)
      → KeepsAt view (m >>= f) s
  KeepsAt-bind m f s hm hf = record { kept = continue-KeepsAt (m s).0 f (m s).1 hf ∙ hm.kept }
