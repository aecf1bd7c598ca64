-- ===== src/Prelude/Tests.antt =====
-- Boolean tests, the conditional and the case splits that keep an equation.
use Prim.Native.Nat.{ℕ, compare, Ordering}
use Prim.Native.String.{String}
use mathlib.Core.Path.{◌≡◌, refl, sym, ◌∙◌}
use mathlib.Core.Logic.{◌↔◌, ◌⊎◌, inl, inr, ◌≢◌}
use mathlib.Core.Bool.{Bool, true, false}
use mathlib.Core.Option.{Option, none, some}
use text.Mathlib.Text.{◌==◌}
use text.Mathlib.TextEquality.{eq_iff}

abbrev pub ltb : ℕ → ℕ → Bool
ltb a b = elim (compare a b) [ Ordering.lt ↦ true | _ ↦ false ]

abbrev pub leb : ℕ → ℕ → Bool
leb a b = elim (compare a b) [ Ordering.gt ↦ false | _ ↦ true ]

infix 1 if◌then◌else◌
abbrev pub if◌then◌else◌ {ℓ} : {A : Type ℓ} → Bool → A → A → A
if true then x else y = x
if false then x else y = y

pub Bool-cases : (b : Bool) → (b ≡ true) ⊎ (b ≡ false)
Bool-cases true = inl refl
Bool-cases false = inr refl

pub Option-cases {ℓ} : {A : Type ℓ} (o : Option A) → (o ≡ none) ⊎ ((a : A) × (o ≡ some a))
Option-cases none = inl refl
Option-cases (some a) = inr (a, refl)

-- `reflect.DeepEqual` on values of a type whose equality is decided.
abbrev pub decided {ℓ} : {P : Type ℓ} → Dec P → Bool
decided (yes _) = true
decided (no _) = false

abbrev pub deep_equal {ℓ} : {A : Type ℓ} → Discrete A → A → A → Bool
deep_equal d a b = decided (d a b)

pub deep_equal_iff {ℓ} :
    {A : Type ℓ} (d : Discrete A) (a b : A) → (deep_equal d a b ≡ true) ↔ (a ≡ b)
deep_equal_iff d a b = go (d a b)
  where
    go : (t : Dec (a ≡ b)) → (decided t ≡ true) ↔ (a ≡ b)
    go (yes h) = (λ _. h, λ _. refl)
    go (no h) = (λ e. absurd (cc e), λ e. absurd (h e))

-- Equality of texts, as a decision that runs.
text_dec : (s t : String) (b : Bool) → (s == t) ≡ b → Dec (s ≡ t)
text_dec s t true e = yes ((eq_iff s t).0 e)
text_dec s t false e = no (λ p. cc (sym e ∙ (eq_iff s t).1 p))

unfoldable pub String-discrete : Discrete String
unfolding text_dec
String-discrete s t = text_dec s t (s == t) refl

pub ==_of_eq : {s t : String} → s ≡ t → (s == t) ≡ true
==_of_eq {s} {t} h = (eq_iff s t).1 h

pub ==_of_ne : {s t : String} → s ≢ t → (s == t) ≡ false
==_of_ne {s} {t} h = elim (Bool-cases (s == t)) [
  | inl e ↦ absurd (h ((eq_iff s t).0 e))
  | inr e ↦ e
]
