-- ===== src/Examples/Access.antt =====
-- The webhooks, the rules and the roles that decide on access, at concrete requests.
use theatre.Prelude.{
  ℕ, ◌≡◌, ◌≢◌, refl, ◌↔◌, String, true, Option, some, List, [], ◌∷◌, ok, err, Result, arith, eq_iff,
}
use theatre.Kubernetes.{NamespacedName}
use theatre.Rbac.{includes_subject, diff, same_subject}
use theatre.Console.{Console, pending_authorisation}
use theatre.Console.Template.{
  ConsoleTemplate, ConsoleAuthorisationRule, ConsoleAuthorisers, match_rule, matches, out_of_range,
  validate, has_authorisation_rules, get_authorisation_rule_for_command,
}
use theatre.Console.Template.Matching.{Matches, match_rule-Matches}
use theatre.Console.Template.Choosing.{
  IsChosen, get_authorisation_rule_for_command-IsChosen, empty_rule_panics,
}
use theatre.Prelude.Results.{panic}
use theatre.ConsoleAuthorisation.{ConsoleAuthorisation, handle, allowed, is_console_authorised}
use theatre.ConsoleAuthorisation
use theatre.ConsoleAuthorisation.Updating.{IsLegal, handle-IsLegal}
use theatre.ConsoleAuthorisation.Counting.{repeated_authorises, repeated}
use theatre.ConsoleController.Access.{build_user_role}
use theatre.ConsoleController.Access.Grants.{grants, IsPodAccess, build_user_role-grants_iff}
use theatre.Examples.{user, key, migrations, template, console_in, authorised_by}

abbrev matchers : List String
matchers = "rails" ∷ "*" ∷ "**" ∷ []

match_rule-Matches_example :
    ((match_rule matchers ("rails" ∷ "c" ∷ "-e" ∷ []) ≡ matches)
      ↔ Matches matchers ("rails" ∷ "c" ∷ "-e" ∷ []))
    × (match_rule matchers ("rails" ∷ "c" ∷ "-e" ∷ []) ≢ out_of_range)
match_rule-Matches_example =
    match_rule-Matches matchers ("rails" ∷ "c" ∷ "-e" ∷ [])
      (ground (arith, eq_iff "rails" "**"), (ground (arith, eq_iff "*" "**"), tt))

abbrev command : List String
command = "rails" ∷ "c" ∷ []

template_valid : (validate template ≡ []) × (has_authorisation_rules template ≡ true)
unfolding validate has_authorisation_rules
template_valid = (refl, refl)

get_authorisation_rule_for_command-IsChosen_example :
    (fallback : ConsoleAuthorisers) × (rule : ConsoleAuthorisationRule)
    × (template.spec.default_authorisation_rule ≡ some fallback)
    × (get_authorisation_rule_for_command template command ≡ ok rule)
    × IsChosen command template.spec.authorisation_rules fallback rule
get_authorisation_rule_for_command-IsChosen_example =
    get_authorisation_rule_for_command-IsChosen template command template_valid.0 template_valid.1
      ((λ e. cc e), tt)

abbrev unmatched : ConsoleAuthorisationRule
unmatched = record {
  name = "empty";
  match_command_elements = [];
  authorisers = migrations.authorisers;
}

abbrev dbas : ConsoleAuthorisers
dbas = record { authorisations_required = 2; subjects = user "dba" ∷ [] }

abbrev careless : ConsoleTemplate
careless = record template {
  spec = record template.spec {
    authorisation_rules = unmatched ∷ [];
    default_authorisation_rule = some dbas;
  };
}

empty_rule_panics_example :
    (validate careless ≡ [])
    × (get_authorisation_rule_for_command careless command ≡ err (panic "index out of range"))
empty_rule_panics_example = empty_rule_panics careless command unmatched dbas refl refl refl

abbrev console : Console
console = console_in pending_authorisation

abbrev find_console : NamespacedName → ℕ → Result Console
find_console n s = ok console

abbrev two : ConsoleAuthorisation
two = authorised_by (user "bob" ∷ user "carol" ∷ [])

accepted :
    handle find_console (ok two) (ok (authorised_by (user "bob" ∷ []))) "carol" 0
    ≡ (allowed, some (console, "carol"))
unfolding handle ConsoleAuthorisation.validate diff includes_subject same_subject
accepted = refl

handle-IsLegal_example :
    (csl : Console) × (find_console (key "console") 0 ≡ ok csl)
    × (◌≡◌ {A = Option (Console × String)} (some (console, "carol")) (some (csl, "carol")))
    × IsLegal (record {
      existing_auth = authorised_by (user "bob" ∷ []);
      updated_auth = two;
      user = "carol";
      owner = csl.spec.user;
    })
handle-IsLegal_example =
    handle-IsLegal find_console two (authorised_by (user "bob" ∷ [])) "carol" 0
      (some (console, "carol")) accepted

bob_is_there : includes_subject (user "bob" ∷ []) (user "bob") ≡ true
unfolding includes_subject same_subject
bob_is_there = refl

repeated_authorises_example :
    let u =
      repeated 2
        (user "bob")
        (authorised_by (user "bob" ∷ []))
        "alice@example.com"
        "alice@example.com" in
    (ConsoleAuthorisation.validate u ≡ [])
    × (is_console_authorised (some migrations) (some u.updated_auth) ≡ true)
repeated_authorises_example =
    repeated_authorises migrations (authorised_by (user "bob" ∷ [])) (user "bob")
      "alice@example.com" "alice@example.com" bob_is_there

build_user_role-grants_iff_example :
    (grants (build_user_role (key "console") "pod") "delete" "" "pods" "pod" ≡ true)
    ↔ ((◌≡◌ {A = String} "pod" "pod") × (◌≡◌ {A = String} "" "") × IsPodAccess "delete" "pods")
build_user_role-grants_iff_example =
    build_user_role-grants_iff (key "console") "pod" "delete" "" "pods" "pod"
