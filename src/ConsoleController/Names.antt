-- ===== src/ConsoleController/Names.antt =====
-- console_controller.go: the names of jobs and the values of labels. The texts here are ASCII (names
-- of objects are by the API's rule, and labels are once sanitised), so that characters are bytes.
pub mod Bounds
use Prim.Native.Char.{Char, code}
use Prim.Native.String.{String, count, ◌++◌}
use theatre.Prelude.{ℕ, zero, suc, ◌-◌, Bool, true, false, ◌&&◌, ◌||◌, leb, ltb, if◌then◌else◌}
use text.Mathlib.Text.{◌==◌}

-- `str[0:length]`
unfoldable pub first : ℕ → String → String
first n String.[] = ""
first n (String.◌∷◌ c s) = if ltb 0 n then String.◌∷◌ c (first (n - 1) s) else ""

-- `truncateString`
unfoldable pub truncate_string : String → ℕ → String
truncate_string str length = if ltb length (count str) then first length str else str

-- `getJobName`
unfoldable pub get_job_name : String → String
get_job_name console_name = truncate_string console_name 55 ++ "-console"

-- The class `[A-z0-9\-_.]`, where `A-z` has six characters that are no letters.
unfoldable pub is_label_character : Char → Bool
is_label_character c =
    (leb 65 (code c) && leb (code c) 122)
    || ((leb 48 (code c) && leb (code c) 57) || (leb 45 (code c) && leb (code c) 46))

-- `ReplaceAllString(l, "-")` with the complement of the class.
unfoldable pub replace_others : String → String
replace_others String.[] = ""
replace_others (String.◌∷◌ c s) =
    if is_label_character c
    then String.◌∷◌ c (replace_others s)
    else String.◌∷◌ "-" (replace_others s)

-- `sanitiseLabel`
unfoldable pub sanitise_label : String → String
sanitise_label l = truncate_string (replace_others l) 63
