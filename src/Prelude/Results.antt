-- ===== src/Prelude/Results.antt =====
-- Go errors as values, and actions that keep what they wrote when they fail.
use Prim.Native.String.{String}
use mathlib.Core.Path.{◌≡◌, refl}
use mathlib.Core.Bool.{Bool, true, false}

-- What the Kubernetes API answers when it refuses a call.
pub data ApiError : Type 0 where
  not_found conflict : ApiError
  api_failure : String → ApiError

-- `error`: one from the API, `errors.New`, `errors.Wrap`, a run-time panic of the
-- Go code, or an error variable of a package.
pub data Failure : Type 0 where
  api : ApiError → Failure
  message : String → Failure
  wrap : String → Failure → Failure
  panic : String → Failure
  -- An error that a package keeps in a variable, and compares by `==`.
  sentinel : String → Failure

-- `errors.Cause`
unfoldable pub cause : Failure → Failure
cause (api e) = api e
cause (message m) = message m
cause (wrap m e) = cause e
cause (panic m) = panic m
cause (sentinel m) = sentinel m

-- `apierrors.IsConflict`
abbrev pub is_conflict : Failure → Bool
is_conflict (api conflict) = true
is_conflict _ = false

pub data Result {ℓ} (A : Type ℓ) : Type ℓ where
  ok : A → Result A
  err : Failure → Result A

-- `errors.Wrap(err, m)`
abbrev pub wrapped {ℓ} : {A : Type ℓ} → String → Result A → Result A
wrapped m (ok a) = ok a
wrapped m (err e) = err (wrap m e)

-- What comes after a call whose error is returned at once.
infixl 5 ◌>>=◌
abbrev pub ◌>>=◌ {ℓ κ} :
    {Found : Type ℓ} {Answer : Type κ} → Result Found → (Found → Result Answer) → Result Answer
(ok found) >>= next = next found
(err failure) >>= next = err failure

infixl 5 ◌>>◌
abbrev pub ◌>>◌ {ℓ} : {Answer : Type ℓ} → Result (Unit {0}) → Result Answer → Result Answer
(ok _) >> next = next
(err failure) >> next = err failure

-- A chain that succeeds has a first part that succeeds.
pub >>=-eq-ok {ℓ κ} :
    {Found : Type ℓ} {Answer : Type κ} (first : Result Found) (next : Found → Result Answer)
    {answer : Answer}
    → first >>= next ≡ ok answer
    → (found : Found) × (first ≡ ok found) × (next found ≡ ok answer)
>>=-eq-ok (ok found) next done = (found, refl, done)
>>=-eq-ok (err failure) next done = cc

pub wrapped-eq-ok {ℓ} :
    {A : Type ℓ} (m : String) (r : Result A) {a : A} → wrapped m r ≡ ok a → r ≡ ok a
wrapped-eq-ok m (ok b) h = h
wrapped-eq-ok m (err e) h = cc
