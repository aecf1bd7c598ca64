-- ===== src/Logging/Linear.antt =====
-- labels.go: a linear key has neither slashes nor periods, and the length of its label.
use Prim.Native.Char.{Char}
use Prim.Native.String.{count}
use text.Mathlib.TextLemmas.{length-cons}
use theatre.Prelude.{◌≡◌, refl, ◌∙◌, sym, String, true, false, arith, Bool-cases, inl, inr}
use theatre.Prelude.Texts.{same_char, lacks}
use theatre.Logging.{replace_char, linear_label_key}

lacks-replace_char :
    (mark : Char) (s : String)
    → same_char mark "_" ≡ false
    → lacks mark (replace_char mark s) ≡ true
unfolding lacks replace_char
lacks-replace_char mark String.[] h = refl
lacks-replace_char mark (String.◌∷◌ c s) h = elim (Bool-cases (same_char mark c)) [
  | inl e ↦ rw (e, h) (lacks-replace_char mark s h)
  | inr e ↦ rw (e, e) (lacks-replace_char mark s h)
]

lacks-replace_other :
    (mark gone : Char) (s : String)
    → same_char gone "_" ≡ false
    → lacks gone s ≡ true
    → lacks gone (replace_char mark s) ≡ true
unfolding lacks replace_char
lacks-replace_other mark gone String.[] h l = refl
lacks-replace_other mark gone (String.◌∷◌ c s) h l = elim (Bool-cases (same_char mark c)) [
  | inl e ↦ rw (e, h) (lacks-replace_other mark gone s h (ground (arith, l)))
  | inr e ↦ elim (Bool-cases (same_char gone c)) [
    | inl g ↦ absurd (ground (arith, l))
    | inr g ↦ rw (e, g) (lacks-replace_other mark gone s h (ground (arith, l)))
  ]
]

count-replace_char : (mark : Char) (s : String) → count (replace_char mark s) ≡ count s
unfolding replace_char
count-replace_char mark String.[] = refl
count-replace_char mark (String.◌∷◌ c s) =
    length-cons _ (replace_char mark s)
    ∙ ground (arith, count-replace_char mark s)
    ∙ sym (length-cons c s)

-- The key of a log that a label becomes has no slash and no period, and is as long as the label.
pub linear_label_key-IsLinear :
    (label_key : String)
    → (lacks "/" (linear_label_key label_key) ≡ true)
      × (lacks "." (linear_label_key label_key) ≡ true)
      × (count (linear_label_key label_key) ≡ count label_key)
unfolding linear_label_key
linear_label_key-IsLinear label_key = (
  lacks-replace_other "." "/" (replace_char "/" label_key) refl
      (lacks-replace_char "/" label_key refl),
  lacks-replace_char "." (replace_char "/" label_key) refl,
  count-replace_char "." (replace_char "/" label_key) ∙ count-replace_char "/" label_key,
)
