-- ===== src/ConsoleController/Job/Labels.antt =====
-- console_controller.go: the labels of a job, which say what a console is accounted to.
use theatre.Prelude.{
  ◌≡◌, refl, String, Option, none, some, List, [], ◌∷◌, arith, lookup, lookup-insert,
}
use theatre.Console.{Console}
use theatre.ConsoleController.Job.{merge}

abbrev pub or_else : Option String → Option String → Option String
or_else (some v) w = some v
or_else none w = w

-- A key of the second set has its value there, and any other key has that of the first set.
pub lookup-merge :
    (k : String) (first second : List (String × String))
    → lookup k (merge first second) ≡ or_else (lookup k second) (lookup k first)
unfolding lookup merge
lookup-merge k first [] = refl
lookup-merge k first ((j, v) ∷ second) =
    ground (arith, lookup-merge k first second, lookup-insert j k v (merge first second))
