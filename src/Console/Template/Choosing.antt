-- ===== src/Console/Template/Choosing.antt =====
-- helpers.go: in a template that validates, the rule for a command is the first that matches it,
-- and else the default rule.
use theatre.Prelude.{
  ℕ, suc, ◌+◌, ◌<◌, ◌≡◌, ◌≢◌, refl, ◌∙◌, ap, String, eq_iff, true, ◌||◌, Option, none, some, List,
  [], ◌∷◌, ◌++◌, ok, err, length, arith, ltb, ◌⊎◌, inl, inr, All,
}
use theatre.Prelude.Results.{panic}
use theatre.Console.Template.{
  Verdict, matches, differs, out_of_range, match_rule, ConsoleAuthorisers, ConsoleAuthorisationRule,
  ConsoleTemplate, element_errors, rule_errors, rules_errors, default_errors, validate, choose,
  fallback_rule, is_some, has_authorisation_rules, get_authorisation_rule_for_command,
}
use theatre.Console.Template.Matching.{Matches, IsPattern, match_rule-Matches}

append-eq-nil : {A : Type 0} (xs ys : List A) → xs ++ ys ≡ [] → (xs ≡ []) × (ys ≡ [])
append-eq-nil [] ys h = (refl, h)
append-eq-nil (x ∷ xs) ys h = cc

element_valid : (i j n : ℕ) (m : String) → element_errors i j n m ≡ [] → suc j < n → m ≢ "**"
unfolding element_errors
element_valid i j n m e h s = ground (arith, eq_iff m "", eq_iff m "**", eq_iff "**" "")

-- A rule with at least one matcher and no errors is a pattern.
rule_valid :
    (i j n : ℕ) (m : String) (ms : List String)
    → rule_errors i j n (m ∷ ms) ≡ []
    → j + length (m ∷ ms) ≡ n
    → IsPattern (m ∷ ms)
unfolding rule_errors
rule_valid i j n m [] e h = tt
rule_valid i j n m (k ∷ ms) e h =
    let (here, later) =
      append-eq-nil (element_errors i j n m) (rule_errors i (suc j) n (k ∷ ms)) e in
    (element_valid i j n m here (omega arith), rule_valid i (suc j) n k ms later (omega arith))

abbrev pub HasMatchers : ConsoleAuthorisationRule → Type 0
HasMatchers rule = rule.match_command_elements ≢ []

abbrev ArePatterns : List ConsoleAuthorisationRule → Type 0
ArePatterns = All (λ rule. IsPattern rule.match_command_elements)

IsPattern-of_valid :
    (i : ℕ) (ms : List String) → rule_errors i 0 (length ms) ms ≡ [] → ms ≢ [] → IsPattern ms
IsPattern-of_valid i [] e ne = absurd (ne refl)
IsPattern-of_valid i (m ∷ ms) e ne = rule_valid i 0 (length (m ∷ ms)) m ms e (omega arith)

rules_valid :
    (i : ℕ) (rules : List ConsoleAuthorisationRule)
    → rules_errors i rules ≡ []
    → All HasMatchers rules
    → ArePatterns rules
unfolding rules_errors
rules_valid i [] e h = tt
rules_valid i (r ∷ rules) e (ne, h) =
    let ms = r.match_command_elements in
    let (here, later) =
      append-eq-nil (rule_errors i 0 (length ms) ms) (rules_errors (suc i) rules) e in
    (IsPattern-of_valid i ms here ne, rules_valid (suc i) rules later h)

-- `rule` is the first of the list that matches the command.
pub data IsFirstMatch (command : List String) (rule : ConsoleAuthorisationRule)
    : List ConsoleAuthorisationRule → Type 0 where
  here :
      {rules : List ConsoleAuthorisationRule}
      → Matches rule.match_command_elements command
      → IsFirstMatch command rule (rule ∷ rules)
  there :
      {other : ConsoleAuthorisationRule} {rules : List ConsoleAuthorisationRule}
      → ¬ Matches other.match_command_elements command
      → IsFirstMatch command rule rules
      → IsFirstMatch command rule (other ∷ rules)

abbrev pub NoneMatches : List String → List ConsoleAuthorisationRule → Type 0
NoneMatches command = All (λ rule. ¬ Matches rule.match_command_elements command)

abbrev pub default_rule : ConsoleAuthorisers → ConsoleAuthorisationRule
default_rule authorisers = record {
  name = "default";
  match_command_elements = [];
  authorisers = authorisers;
}

-- What the choice comes to.
abbrev pub IsChosen :
    List String
    → List ConsoleAuthorisationRule
    → ConsoleAuthorisers
    → ConsoleAuthorisationRule
    → Type 0
IsChosen command rules fallback rule =
    IsFirstMatch command rule rules ⊎ (NoneMatches command rules × (rule ≡ default_rule fallback))

Verdict-cases : (v : Verdict) → (v ≡ matches) ⊎ ((v ≡ differs) ⊎ (v ≡ out_of_range))
Verdict-cases matches = inl refl
Verdict-cases differs = inr (inl refl)
Verdict-cases out_of_range = inr (inr refl)

module _ (r : ConsoleAuthorisationRule) (rules : List ConsoleAuthorisationRule)
    (fallback : Option ConsoleAuthorisers) (command : List String) where
  choose-matches :
      match_rule r.match_command_elements command ≡ matches
      → choose (r ∷ rules) fallback command ≡ ok r
  unfolding choose
  choose-matches e = rw (e, choose) refl

  choose-differs :
      match_rule r.match_command_elements command ≡ differs
      → choose (r ∷ rules) fallback command ≡ choose rules fallback command
  unfolding choose
  choose-differs e = rw (e, choose) refl

  choose-out_of_range :
      match_rule r.match_command_elements command ≡ out_of_range
      → choose (r ∷ rules) fallback command ≡ err (panic "index out of range")
  unfolding choose
  choose-out_of_range e = rw (e, choose) refl

IsChosen-cons :
    (command : List String) (r rule : ConsoleAuthorisationRule)
    (rules : List ConsoleAuthorisationRule) (fallback : ConsoleAuthorisers)
    → ¬ Matches r.match_command_elements command
    → IsChosen command rules fallback rule
    → IsChosen command (r ∷ rules) fallback rule
IsChosen-cons command r rule rules fallback n (inl first) = inl (there n first)
IsChosen-cons command r rule rules fallback n (inr (none_, e)) = inr ((n, none_), e)

choose-IsChosen :
    (rules : List ConsoleAuthorisationRule) (fallback : ConsoleAuthorisers) (command : List String)
    → ArePatterns rules
    → (rule : ConsoleAuthorisationRule) × (choose rules (some fallback) command ≡ ok rule)
      × IsChosen command rules fallback rule
choose-IsChosen [] fallback command p =
    (default_rule fallback, unfold choose fallback_rule in refl, inr (tt, refl))
choose-IsChosen (r ∷ rules) fallback command (p, ps) =
    let (agrees, in_range) = match_rule-Matches r.match_command_elements command p in
    elim (Verdict-cases (match_rule r.match_command_elements command)) [
      | inl m ↦ (r, choose-matches r rules (some fallback) command m, inl (here (agrees.0 m)))
      | inr (inl d) ↦
          let (rule, e, chosen) = choose-IsChosen rules fallback command ps in
          (
            rule,
            choose-differs r rules (some fallback) command d ∙ e,
            IsChosen-cons command r rule rules fallback (λ x. cc (d, agrees.1 x)) chosen,
          )
      | inr (inr o) ↦ absurd (in_range o)
    ]

default_of_valid :
    (rules : List ConsoleAuthorisationRule) (fallback : Option ConsoleAuthorisers)
    → default_errors rules fallback ≡ []
    → (ltb 0 (length rules) || is_some fallback) ≡ true
    → (authorisers : ConsoleAuthorisers) × (fallback ≡ some authorisers)
unfolding default_errors
default_of_valid rules none e h = absurd (ground arith)
default_of_valid rules (some a) e h = (a, refl)

match_rule-nil : (command : List String) → match_rule [] command ≡ out_of_range
unfolding match_rule
match_rule-nil command = refl

validate_parts :
    (ct : ConsoleTemplate)
    → validate ct ≡ []
    → (rules_errors 0 ct.spec.authorisation_rules ≡ [])
      × (default_errors ct.spec.authorisation_rules ct.spec.default_authorisation_rule ≡ [])
unfolding validate
validate_parts ct e = append-eq-nil _ _ e

get_of_valid :
    (ct : ConsoleTemplate) (command : List String)
    → validate ct ≡ []
    → get_authorisation_rule_for_command ct command
      ≡ choose ct.spec.authorisation_rules ct.spec.default_authorisation_rule command
unfolding get_authorisation_rule_for_command
get_of_valid ct command e = rw e refl

-- In a template with authorisation rules that passes `Validate`, and whose rules all have at least
-- one matcher (which the schema of the resource asks for), every command gets a rule: the first in
-- the list that matches it or, if none does, the default one.
pub get_authorisation_rule_for_command-IsChosen :
    (ct : ConsoleTemplate) (command : List String)
    → validate ct ≡ []
    → has_authorisation_rules ct ≡ true
    → All HasMatchers ct.spec.authorisation_rules
    → (fallback : ConsoleAuthorisers) × (rule : ConsoleAuthorisationRule)
      × (ct.spec.default_authorisation_rule ≡ some fallback)
      × (get_authorisation_rule_for_command ct command ≡ ok rule)
      × IsChosen command ct.spec.authorisation_rules fallback rule
unfolding has_authorisation_rules
get_authorisation_rule_for_command-IsChosen ct command e h ms =
    let rules = ct.spec.authorisation_rules in
    let (here_, there_) = validate_parts ct e in
    let (fallback, is_default) =
      default_of_valid rules ct.spec.default_authorisation_rule there_ h in
    let (rule, found, chosen) =
      choose-IsChosen rules fallback command (rules_valid 0 rules here_ ms) in
    (
      fallback,
      rule,
      is_default,
      get_of_valid ct command e ∙ ap (λ d. choose rules d command) is_default ∙ found,
      chosen,
    )

empty_rule_valid :
    (ct : ConsoleTemplate) (rule : ConsoleAuthorisationRule) (fallback : ConsoleAuthorisers)
    → ct.spec.authorisation_rules ≡ rule ∷ []
    → rule.match_command_elements ≡ []
    → ct.spec.default_authorisation_rule ≡ some fallback
    → validate ct ≡ []
unfolding validate rules_errors rule_errors default_errors
empty_rule_valid ct rule fallback e n d = rw (e, n, d) refl

-- A template with a default rule and one other rule, which has no matchers, passes `Validate`, and
-- then the search for the rule of any command panics.
pub empty_rule_panics :
    (ct : ConsoleTemplate) (command : List String) (rule : ConsoleAuthorisationRule)
    (fallback : ConsoleAuthorisers)
    → ct.spec.authorisation_rules ≡ rule ∷ []
    → rule.match_command_elements ≡ []
    → ct.spec.default_authorisation_rule ≡ some fallback
    → (validate ct ≡ [])
      × (get_authorisation_rule_for_command ct command ≡ err (panic "index out of range"))
empty_rule_panics ct command rule fallback e n d =
    let valid = empty_rule_valid ct rule fallback e n d in
    (
      valid,
      get_of_valid ct command valid
          ∙ ap (λ l. choose l ct.spec.default_authorisation_rule command) e
          ∙ choose-out_of_range rule [] ct.spec.default_authorisation_rule command
              (ap (λ l. match_rule l command) n ∙ match_rule-nil command),
    )
