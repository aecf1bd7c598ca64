-- ===== src/Runner/Finding.antt =====
-- runner.go: finding templates and consoles.
pub mod Exactly
use theatre.Prelude.{
  ℕ, String, ◌==◌, ◌<>◌, Bool, ◌||◌, Option, none, some, List, [], ◌∷◌, map, Result, ok, err,
  Failure, if◌then◌else◌,
}
use theatre.Prelude.Results.{message, wrapped, ◌>>=◌}
use theatre.Prelude.Texts.{join}
use theatre.Kubernetes.{NamespacedName}
use theatre.Console.{Console}
use theatre.Console.Template.{ConsoleTemplate}
use theatre.Runner.{Api, Labels}

-- A call whose error is returned, with what it listed.
abbrev pub listed : {A : Type 0} → List A × Option Failure → Result (List A)
listed (items, none) = ok items
listed (items, some e) = err e

-- `fmt`'s form of a list of texts
abbrev bracketed : List String → String
bracketed texts = "[" <> (join texts " " <> "]")

-- `MultipleConsoleTemplateError`, as its text
unfoldable pub multiple_console_template_error : List ConsoleTemplate → Failure
multiple_console_template_error templates = message (
    "expected to discover 1 console template, but actually found: "
    <> bracketed (map (λ t. t.metadata.namespace <> ("/" <> t.metadata.name)) templates))

unfoldable pub exactly_one : List ConsoleTemplate → Result ConsoleTemplate
unfolding multiple_console_template_error
exactly_one (template ∷ []) = ok template
exactly_one [] = err (multiple_console_template_error [])
exactly_one (t ∷ u ∷ templates) = err (multiple_console_template_error (t ∷ u ∷ templates))

-- The loop that keeps the consoles of a name.
unfoldable pub named : String → List Console → List Console
named name [] = []
named name (csl ∷ csls) =
    let rest = named name csls in if csl.metadata.name == name then csl ∷ rest else rest

unfoldable pub only_console : String → List Console → Result Console
only_console name [] = err (message ("no consoles found with name: " <> name))
only_console name (csl ∷ []) = ok csl
only_console name (_ ∷ _ ∷ _) =
    err (message ("too many consoles found with name: " <> (name <> ", please specify namespace")))

-- The loop that keeps the consoles of a user, or all of them.
unfoldable pub owned_by : String → List Console → List Console
owned_by username [] = []
owned_by username (csl ∷ csls) =
    let rest = owned_by username csls in
    if username == "" || csl.spec.user == username then csl ∷ rest else rest

-- An invalid selector is refused before anything is listed.
unfoldable pub with_selector :
    Result Labels → (Labels → List Console × Option Failure) → List Console × Option Failure
with_selector (err e) next = ([], some e)
with_selector (ok selector_set) next = next selector_set

module _ {S Raw : Type 0} (k : Api S Raw) where
  -- `FindTemplateBySelector`
  unfoldable pub find_template_by_selector : String → String → S → Result ConsoleTemplate
  unfolding exactly_one
  find_template_by_selector namespace selector s = do
    selector_set ← wrapped "invalid selector" (k.selector_labels selector)
    templates ←
        wrapped "failed to list consoles templates"
          (listed (k.list_templates namespace selector_set s))
    exactly_one templates

  -- `FindConsoleByName`
  unfoldable pub find_console_by_name : String → String → S → Result Console
  unfolding named only_console
  find_console_by_name namespace name s = do
    consoles ← listed (k.list_consoles namespace [] s)
    only_console name (named name consoles)

  -- `ListConsolesByLabelsAndUser`, which filters what a failed call lists too.
  unfoldable pub list_consoles_by_labels_and_user :
      String → String → String → S → List Console × Option Failure
  unfolding owned_by with_selector
  list_consoles_by_labels_and_user namespace username selector s =
      with_selector (wrapped "invalid selector" (k.selector_labels selector)) λ selector_set.
        let (csls, e) = k.list_consoles namespace selector_set s in (owned_by username csls, e)

  -- `Get`
  unfoldable pub get : NamespacedName → S → Result Console
  get n s = k.get_console n s
