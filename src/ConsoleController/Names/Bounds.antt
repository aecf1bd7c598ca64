-- ===== src/ConsoleController/Names/Bounds.antt =====
-- console_controller.go: job names and labels keep within what the API accepts.
use Prim.Native.String.{String, count}
use theatre.Prelude.{ℕ, ◌-◌, ◌≤◌, ◌≡◌, refl, ap, inl, inr, true, ltb, arith, Bool-cases}
use text.Mathlib.TextLemmas.{length-cons, length-append, length-nil}
use theatre.ConsoleController.Names.{
  first, truncate_string, get_job_name, is_label_character, replace_others, sanitise_label,
}

count-first : (n : ℕ) (s : String) → count (first n s) ≤ n
unfolding first
count-first n String.[] = ground (arith, length-nil)
count-first n (String.◌∷◌ c s) = elim (Bool-cases (ltb 0 n)) [
  | inl e ↦ rw e (ground (arith, e, count-first (n - 1) s, length-cons c (first (n - 1) s)))
  | inr e ↦ rw e (ground (arith, length-nil))
]

-- A truncated text has at most the given length, and a text within it is kept.
pub count-truncate_string :
    (str : String) (length : ℕ) → count (truncate_string str length) ≤ length
unfolding truncate_string
count-truncate_string str length = ground (arith, count-first length str)

-- The name of a job has at most 63 characters, for a console of any name.
pub count-get_job_name : (console_name : String) → count (get_job_name console_name) ≤ 63
unfolding get_job_name
count-get_job_name console_name = ground (
  arith,
  length-append (truncate_string console_name 55) "-console",
  count-truncate_string console_name 55,
)

-- A text of the characters that the class lets through.
unfoldable pub IsLabelText : String → Type 0
IsLabelText String.[] = Unit {0}
IsLabelText (String.◌∷◌ c s) = (is_label_character c ≡ true) × IsLabelText s

replace_others-IsLabelText : (l : String) → IsLabelText (replace_others l)
unfolding replace_others IsLabelText
replace_others-IsLabelText String.[] = tt
replace_others-IsLabelText (String.◌∷◌ c s) = elim (Bool-cases (is_label_character c)) [
  | inl e ↦ rw e (e, replace_others-IsLabelText s)
  | inr e ↦ rw e ((unfold is_label_character in refl), replace_others-IsLabelText s)
]

first-IsLabelText : (n : ℕ) (s : String) → IsLabelText s → IsLabelText (first n s)
unfolding first IsLabelText
first-IsLabelText n String.[] h = tt
first-IsLabelText n (String.◌∷◌ c s) h = elim (Bool-cases (ltb 0 n)) [
  | inl e ↦ rw e (h.0, first-IsLabelText (n - 1) s h.1)
  | inr e ↦ rw e tt
]

truncate_string-IsLabelText :
    (str : String) (length : ℕ) → IsLabelText str → IsLabelText (truncate_string str length)
unfolding truncate_string
truncate_string-IsLabelText str length h = elim (Bool-cases (ltb length (count str))) [
  | inl e ↦ rw e (first-IsLabelText length str h)
  | inr e ↦ rw e h
]

replace_others-keeps : (l : String) → IsLabelText l → replace_others l ≡ l
unfolding replace_others IsLabelText
replace_others-keeps String.[] h = refl
replace_others-keeps (String.◌∷◌ c s) h = rw h.0 (ap (String.◌∷◌ c) (replace_others-keeps s h.1))

truncate_string_keeps : (l : String) (length : ℕ) → count l ≤ length → truncate_string l length ≡ l
unfolding truncate_string
truncate_string_keeps l length fits = ground arith

-- A sanitised label has at most 63 characters, all of the class.
pub sanitise_label-IsLabelText :
    (l : String) → (count (sanitise_label l) ≤ 63) × IsLabelText (sanitise_label l)
unfolding sanitise_label
sanitise_label-IsLabelText l = (
  count-truncate_string (replace_others l) 63,
  truncate_string-IsLabelText (replace_others l) 63 (replace_others-IsLabelText l),
)

-- A text that is a label already is kept as it is, so that sanitising twice is sanitising once.
pub sanitise_label_keeps : (l : String) → IsLabelText l → count l ≤ 63 → sanitise_label l ≡ l
unfolding sanitise_label
sanitise_label_keeps l h fits =
    ground (arith, replace_others-keeps l h, truncate_string_keeps l 63 fits)

-- Sanitising a label twice is sanitising it once.
pub sanitise_label_idem : (l : String) → sanitise_label (sanitise_label l) ≡ sanitise_label l
sanitise_label_idem l =
    let (fits, text) = sanitise_label-IsLabelText l in
    sanitise_label_keeps (sanitise_label l) text fits
