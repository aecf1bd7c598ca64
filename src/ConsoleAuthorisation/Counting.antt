-- ===== src/ConsoleAuthorisation/Counting.antt =====
-- console_authorisation_webhook.go and `isConsoleAuthorised`: the webhook compares sets, and the
-- controller counts a list.
use theatre.Prelude.{
  ℕ, zero, suc, ◌≤◌, ◌≡◌, refl, ◌↔◌, ◌⊎◌, inl, inr, sym, ◌∙◌, ap, String, ==_of_eq, true, List, [],
  ◌∷◌, ◌++◌, Option, none, some, length, length-append, arith,
}
use theatre.Kubernetes.{Subject}
use theatre.Rbac.{includes_subject}
use theatre.Rbac.Subjects.{diff-eq-nil_iff, includes_subject-cons, includes_subject_congr}
use theatre.Console.Template.{ConsoleAuthorisationRule}
use theatre.ConsoleAuthorisation.{
  ConsoleAuthorisation, ConsoleAuthorisationUpdate, added, removed, validate, is_console_authorised,
}

-- A console may run exactly when no rule applies to its command, or its authorisation object lists as
-- many authorisations as the rule requires.
pub is_console_authorised_iff :
    (rule : Option ConsoleAuthorisationRule) (auth : Option ConsoleAuthorisation)
    → (is_console_authorised rule auth ≡ true) ↔ (
        (rule ≡ none)
        ⊎ ((r : ConsoleAuthorisationRule) × (a : ConsoleAuthorisation) × (rule ≡ some r)
            × (auth ≡ some a)
            × (r.authorisers.authorisations_required ≤ length a.authorisations)))
unfolding is_console_authorised
is_console_authorised_iff none auth = (λ h. inl refl, λ h. refl)
is_console_authorised_iff (some rule) none = (
  λ h. absurd (cc h),
  λ h. elim h [ inl e ↦ absurd (cc e) | inr (r, a, e, f, l) ↦ absurd (cc f) ],
)
is_console_authorised_iff (some rule) (some auth) = (
  λ h. inr (rule, auth, refl, refl, ground arith),
  λ h. elim h [ inl e ↦ absurd (cc e) | inr (r, a, e, f, l) ↦ ground (arith, e, f, l) ],
)

-- `n` further copies of a subject.
pub copies : ℕ → Subject → List Subject
copies zero s = []
copies (suc n) s = s ∷ copies n s

length-copies : (n : ℕ) (s : Subject) → length (copies n s) ≡ n
unfolding copies
length-copies zero s = refl
length-copies (suc n) s = ap suc (length-copies n s)

includes_subject-copies :
    (n : ℕ) (s x : Subject) (l : List Subject)
    → includes_subject l s ≡ true
    → includes_subject (copies n s ++ l) x ≡ includes_subject l x
unfolding copies
includes_subject-copies zero s x l h = refl
includes_subject-copies (suc n) s x l h = ground (
  arith,
  includes_subject-cons s (copies n s ++ l) x,
  includes_subject-copies n s x l h,
  includes_subject_congr l s x,
)

-- The update that repeats an authorisation that is there already.
abbrev pub repeated :
    ℕ → Subject → ConsoleAuthorisation → String → String → ConsoleAuthorisationUpdate
repeated n s auth user owner = record {
  existing_auth = auth;
  updated_auth = record auth { authorisations = copies n s ++ auth.authorisations };
  user = user;
  owner = owner;
}

validate_of_same :
    (u : ConsoleAuthorisationUpdate)
    → u.updated_auth.console_ref ≡ u.existing_auth.console_ref
    → added u ≡ []
    → removed u ≡ []
    → validate u ≡ []
unfolding validate
validate_of_same u r a d = rw (a, d, ==_of_eq r) refl

-- Once one subject has authorised a console, any user at all (its owner too) may repeat that
-- subject's entry as often as the rule requires: the update passes `Validate`, and the console then
-- counts as authorised, whatever number of authorisations is required.
pub repeated_authorises :
    (rule : ConsoleAuthorisationRule) (auth : ConsoleAuthorisation) (s : Subject)
    (user owner : String)
    → includes_subject auth.authorisations s ≡ true
    → let u = repeated rule.authorisers.authorisations_required s auth user owner in
      (validate u ≡ []) × (is_console_authorised (some rule) (some u.updated_auth) ≡ true)
unfolding is_console_authorised
repeated_authorises rule auth s user owner h =
    let n = rule.authorisers.authorisations_required in
    let u = repeated n s auth user owner in
    (
      validate_of_same u refl
          (unfold added in
            (diff-eq-nil_iff (copies n s ++ auth.authorisations) auth.authorisations).1
              (λ x i. sym (includes_subject-copies n s x auth.authorisations h) ∙ i))
          (unfold removed in
            (diff-eq-nil_iff auth.authorisations (copies n s ++ auth.authorisations)).1
              (λ x i. includes_subject-copies n s x auth.authorisations h ∙ i)),
      ground (arith, length-append (copies n s) auth.authorisations, length-copies n s),
    )
