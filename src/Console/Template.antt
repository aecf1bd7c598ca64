-- ===== src/Console/Template.antt =====
-- helpers.go: `ConsoleTemplate` and the choice of an authorisation rule for a command. Numbers that
-- the source keeps in an `int` are natural: a negative requirement acts as none.
pub mod Matching
pub mod Choosing
use theatre.Prelude.{
  ℕ, zero, suc, ◌+◌, String, ◌==◌, Bool, true, false, ◌||◌, not, ◌&&◌, Option, none, some, List, [],
  ◌∷◌, ◌++◌, Result, ok, err, ltb, leb, ◌-◌, length, if◌then◌else◌,
}
use theatre.Prelude.Results.{Failure, message, panic, ◌>>=◌, ◌>>◌}
use theatre.Kubernetes.{ObjectMeta, Subject}
use theatre.Kubernetes.Workload.{PodTemplate}
use mathlib.Core.List.{tail}

pub record ConsoleAuthorisers : Type 0 where
  pub authorisations_required : ℕ
  pub subjects : List Subject

pub record ConsoleAuthorisationRule : Type 0 where
  pub name : String
  pub match_command_elements : List String
  pub authorisers : ConsoleAuthorisers

pub record ConsoleTemplateSpec : Type 0 where
  pub template : PodTemplate
  pub default_timeout_seconds : ℕ
  pub max_timeout_seconds : ℕ
  pub additional_attach_subjects : List Subject
  pub default_ttl_seconds_before_running : Option ℕ
  pub default_ttl_seconds_after_finished : Option ℕ
  pub authorisation_rules : List ConsoleAuthorisationRule
  pub default_authorisation_rule : Option ConsoleAuthorisers

pub record ConsoleTemplate : Type 0 where
  pub metadata : ObjectMeta
  pub spec : ConsoleTemplateSpec

-- `GetDefaultCommandWithArgs`
unfoldable pub get_default_command_with_args : ConsoleTemplate → Result (List String)
get_default_command_with_args ct = elim ct.spec.template.spec.containers [
  | [] ↦ err (message "template has no containers defined")
  | c ∷ _ ↦ ok (c.command ++ c.args)
]

-- `HasAuthorisationRules`
abbrev pub is_some {ℓ} : {A : Type ℓ} → Option A → Bool
is_some none = false
is_some (some _) = true

unfoldable pub has_authorisation_rules : ConsoleTemplate → Bool
has_authorisation_rules ct =
    ltb 0 (length ct.spec.authorisation_rules) || is_some ct.spec.default_authorisation_rule

-- The errors that `Validate` collects, with the positions of rule and matcher.
pub data ValidationError : Type 0 where
  empty_matcher : ℕ → ℕ → ValidationError
  misplaced_wildcard : ℕ → ℕ → ValidationError
  no_default_rule : ValidationError

-- The switch on one matcher, number `j` of `n` in rule `i`.
element_errors : ℕ → ℕ → ℕ → String → List ValidationError
element_errors i j n element =
    if element == ""
    then empty_matcher i j ∷ []
    else if element == "**"
    then (if ltb (j + 1) n then misplaced_wildcard i j ∷ [] else [])
    else []

rule_errors : ℕ → ℕ → ℕ → List String → List ValidationError
rule_errors i j n [] = []
rule_errors i j n (element ∷ elements) =
    element_errors i j n element ++ rule_errors i (suc j) n elements

rules_errors : ℕ → List ConsoleAuthorisationRule → List ValidationError
rules_errors i [] = []
rules_errors i (rule ∷ rules) =
    rule_errors i 0 (length rule.match_command_elements) rule.match_command_elements
    ++ rules_errors (suc i) rules

default_errors : List ConsoleAuthorisationRule → Option ConsoleAuthorisers → List ValidationError
default_errors rules fallback =
    if ltb 0 (length rules) && not (is_some fallback) then no_default_rule ∷ [] else []

-- `Validate`; no errors is `nil`
unfoldable pub validate : ConsoleTemplate → List ValidationError
unfolding element_errors rule_errors rules_errors default_errors
validate ct =
    rules_errors 0 ct.spec.authorisation_rules
    ++ default_errors ct.spec.authorisation_rules ct.spec.default_authorisation_rule

-- How one rule fares: it is returned, the loop goes on, or an index is out of range.
pub data Verdict : Type 0 where
  matches differs out_of_range : Verdict

-- The loop over the matchers, with the command from position `i` on.
match_from : List String → List String → Verdict
match_from [] command = matches
match_from (matcher ∷ matchers) command =
    let rest = match_from matchers (tail command) in
    if matcher == "*" then rest else if matcher == "**" then matches else elim command [
      | [] ↦ out_of_range
      | element ∷ _ ↦ if element == matcher then rest else differs
    ]

-- `rule.MatchCommandElements[numMatchers-1]`
unfoldable pub last_matcher : List String → Option String
last_matcher [] = none
last_matcher (m ∷ []) = some m
last_matcher (_ ∷ m ∷ ms) = last_matcher (m ∷ ms)

-- The test of the number of elements.
fits : List String → List String → String → Bool
fits matchers command last =
    if last == "**"
    then not (ltb (length command) (length matchers - 1))
    else leb (length command) (length matchers) && leb (length matchers) (length command)

unfoldable pub match_rule : List String → List String → Verdict
unfolding match_from last_matcher fits
match_rule matchers command = elim (last_matcher matchers) [
  | none ↦ out_of_range
  | some last ↦ if fits matchers command last then match_from matchers command else differs
]

fallback_rule : Option ConsoleAuthorisers → Result ConsoleAuthorisationRule
fallback_rule none = err (message "no rules matched the command")
fallback_rule (some authorisers) =
    ok (record { name = "default"; match_command_elements = []; authorisers = authorisers })

-- The loop over the rules.
choose :
    List ConsoleAuthorisationRule
    → Option ConsoleAuthorisers
    → List String
    → Result ConsoleAuthorisationRule
unfolding fallback_rule
choose [] fallback command = fallback_rule fallback
choose (rule ∷ rules) fallback command = elim (match_rule rule.match_command_elements command) [
  | matches ↦ ok rule
  | differs ↦ choose rules fallback command
  | out_of_range ↦ err (panic "index out of range")
]

abbrev check_valid : List ValidationError → Result (Unit {0})
check_valid [] = ok tt
check_valid (_ ∷ _) = err (message "the console template is invalid")

-- `GetAuthorisationRuleForCommand`
unfoldable pub get_authorisation_rule_for_command :
    ConsoleTemplate → List String → Result ConsoleAuthorisationRule
unfolding choose
get_authorisation_rule_for_command ct command = do
  check_valid (validate ct)
  choose ct.spec.authorisation_rules ct.spec.default_authorisation_rule command
