-- ===== src/Prelude/Lists.antt =====
-- Lists measured by native numbers, predicates on lists, and string maps as association lists.
use Prim.Native.Nat.{ℕ, suc, ◌+◌}
use Prim.Native.String.{String}
use mathlib.Core.Path.{◌≡◌, refl}
use mathlib.Core.Bool.{Bool, false, ◌||◌}
use mathlib.Core.Option.{Option, none, some}
use mathlib.Core.List.{List, [], ◌∷◌, ◌++◌}
use native.Mathlib.Omega.{arith}
use text.Mathlib.Text.{◌==◌}
use text.Mathlib.TextEquality.{eq_iff}
use theatre.Prelude.Tests.{if◌then◌else◌}

module _ {ℓ} {A : Type ℓ} where
  abbrev pub length : List A → ℕ
  length [] = 0
  length (_ ∷ xs) = suc (length xs)

  pub length-append : (xs ys : List A) → length (xs ++ ys) ≡ length xs + length ys
  length-append [] ys = omega arith
  length-append (_ ∷ xs) ys = omega (arith, length-append xs ys)

  abbrev pub any : (A → Bool) → List A → Bool
  any p [] = false
  any p (x ∷ xs) = p x || any p xs

module _ {ℓ κ} {A : Type ℓ} (P : A → Type κ) where
  abbrev pub All : List A → Type κ
  All [] = Unit
  All (x ∷ xs) = P x × All xs

  pub All-append : (xs ys : List A) → All xs → All ys → All (xs ++ ys)
  All-append [] ys _ k = k
  All-append (_ ∷ xs) ys (p, h) k = (p, All-append xs ys h k)

-- A Go map with text keys, as an association list with one entry for each key it was given.
module _ {ℓ} {V : Type ℓ} where
  unfoldable pub lookup : String → List (String × V) → Option V
  lookup k [] = none
  lookup k ((j, v) ∷ m) = if j == k then some v else lookup k m

  unfoldable pub insert : String → V → List (String × V) → List (String × V)
  insert k v [] = (k, v) ∷ []
  insert k v ((j, w) ∷ m) = if j == k then (k, v) ∷ m else (j, w) ∷ insert k v m

  unfoldable pub remove : String → List (String × V) → List (String × V)
  remove k [] = []
  remove k ((j, w) ∷ m) = if j == k then remove k m else (j, w) ∷ remove k m

  pub lookup-insert :
      (new asked : String) (value : V) (entries : List (String × V))
      → lookup asked (insert new value entries)
        ≡ (if new == asked then some value else lookup asked entries)
  unfolding lookup insert
  lookup-insert new asked value [] = refl
  lookup-insert new asked value ((first, old) ∷ entries) = ground (
    arith,
    lookup-insert new asked value entries,
    eq_iff first asked,
    eq_iff first new,
    eq_iff new asked,
  )

  pub lookup-remove :
      (gone asked : String) (entries : List (String × V))
      → lookup asked (remove gone entries) ≡ (if gone == asked then none else lookup asked entries)
  unfolding lookup remove
  lookup-remove gone asked [] = ground arith
  lookup-remove gone asked ((first, old) ∷ entries) = ground (
    arith,
    lookup-remove gone asked entries,
    eq_iff first asked,
    eq_iff first gone,
    eq_iff gone asked,
  )
