-- ===== src/Runner/Creating/Composing.antt =====
-- runner.go with the console authorisation webhook: what `Authorise` patches, and when it is allowed.
use theatre.Prelude.{
  ◌≡◌, ◌≢◌, refl, ◌∙◌, ◌⊎◌, Option, some, ◌↔◌, String, eq_iff, true, not, ◌||◌, List, [], ◌∷◌, ◌++◌,
  arith, Bool-cases, inl, inr, if◌then◌else◌,
}
use theatre.Kubernetes.{Subject}
use theatre.Rbac.{includes_subject, diff}
use theatre.Rbac.Subjects.{diff-eq-nil_iff, includes_subject-cons, includes_subject-nil}
use theatre.ConsoleAuthorisation.{
  ConsoleAuthorisation, ConsoleAuthorisationUpdate, validate, added, removed,
}
use theatre.Runner.{Operation}
use theatre.Runner.Creating.{authorise_patch}

-- The subject that a user's authorisation adds.
abbrev pub authoriser : String → String → Subject
authoriser namespace username = record {
  kind = "User";
  api_group = "";
  name = username;
  namespace = namespace;
}

-- The authorisation with one more subject at its end.
abbrev pub extended : ConsoleAuthorisation → Subject → ConsoleAuthorisation
extended authz s = record authz { authorisations = authz.authorisations ++ s ∷ [] }

-- What RFC 6902 says of a patch on an authorisation, as far as the runner relies on it: the
-- operations apply in order, and `add` at the path of a list that ends in `-` appends its value. Of
-- any other operation, or any other path, nothing is known.
pub record IsJsonPatch
    (apply_patch : List Operation → ConsoleAuthorisation → Option ConsoleAuthorisation)
    : Type 0 where
  pub nothing : (authz : ConsoleAuthorisation) → apply_patch [] authz ≡ some authz
  pub add :
      (authz : ConsoleAuthorisation) (value : Subject) (operations : List Operation)
      → apply_patch
          (record { op = "add"; path = "/spec/authorisations/-"; value = value } ∷ operations)
          authz
        ≡ apply_patch operations (extended authz value)

-- The update that the webhook is asked about.
abbrev pub asked :
    ConsoleAuthorisation → ConsoleAuthorisation → String → String → ConsoleAuthorisationUpdate
asked authz updated username owner = record {
  existing_auth = authz;
  updated_auth = updated;
  user = username;
  owner = owner;
}

-- The update that appends the user's subject.
abbrev patched : ConsoleAuthorisation → String → String → String → ConsoleAuthorisationUpdate
patched authz namespace username owner =
    asked authz (extended authz (authoriser namespace username)) username owner

authorise_patch-applies :
    (apply_patch : List Operation → ConsoleAuthorisation → Option ConsoleAuthorisation)
    → IsJsonPatch apply_patch
    → (authz : ConsoleAuthorisation) (namespace username : String)
    → apply_patch (authorise_patch namespace username) authz
      ≡ some (extended authz (authoriser namespace username))
unfolding authorise_patch
authorise_patch-applies apply_patch rfc authz namespace username =
    let s = authoriser namespace username in rfc.add authz s [] ∙ rfc.nothing (extended authz s)

includes_subject-append :
    (xs ys : List Subject) (s : Subject)
    → includes_subject (xs ++ ys) s ≡ (includes_subject xs s || includes_subject ys s)
includes_subject-append [] ys s = ground (arith, includes_subject-nil s)
includes_subject-append (x ∷ xs) ys s = ground (
  arith,
  includes_subject-cons x (xs ++ ys) s,
  includes_subject-cons x xs s,
  includes_subject-append xs ys s,
)

diff-append : (xs ys zs : List Subject) → diff (xs ++ ys) zs ≡ diff xs zs ++ diff ys zs
unfolding diff
diff-append [] ys zs = refl
diff-append (x ∷ xs) ys zs = ground (arith, diff-append xs ys zs)

diff-own_end :
    (xs : List Subject) (s : Subject)
    → diff (xs ++ s ∷ []) xs ≡ (if not (includes_subject xs s) then s ∷ [] else [])
diff-own_end xs s =
    let own : diff xs xs ≡ [] = (diff-eq-nil_iff xs xs).1 (λ t h. h) in
    let last : diff (s ∷ []) xs ≡ (if not (includes_subject xs s) then s ∷ [] else []) =
      unfold diff in refl in
    diff-append xs (s ∷ []) xs ∙ cc (own, last)

diff-kept : (xs : List Subject) (s : Subject) → diff xs (xs ++ s ∷ []) ≡ []
diff-kept xs s =
    (diff-eq-nil_iff xs (xs ++ s ∷ [])).1
      (λ t h. ground (arith, h, includes_subject-append xs (s ∷ []) t))

module _ (authz : ConsoleAuthorisation) (namespace username owner : String) where
  added-patched : added (patched authz namespace username owner) ≡ (
      if not (includes_subject authz.authorisations (authoriser namespace username))
      then authoriser namespace username ∷ []
      else [])
  unfolding added
  added-patched = diff-own_end authz.authorisations (authoriser namespace username)

  removed-patched : removed (patched authz namespace username owner) ≡ []
  unfolding removed
  removed-patched = diff-kept authz.authorisations (authoriser namespace username)

patched-validate_iff :
    (authz : ConsoleAuthorisation) (namespace username owner : String)
    → (validate (patched authz namespace username owner) ≡ []) ↔ (
        (includes_subject authz.authorisations (authoriser namespace username) ≡ true)
        ⊎ (username ≢ owner))
unfolding validate
patched-validate_iff authz namespace username owner =
    elim (Bool-cases (includes_subject authz.authorisations (authoriser namespace username))) [
      | inl there ↦ ground (
        arith,
        added-patched authz namespace username owner,
        removed-patched authz namespace username owner,
        there,
        eq_iff authz.console_ref authz.console_ref,
      )
      | inr new_ ↦ ground (
        arith,
        added-patched authz namespace username owner,
        removed-patched authz namespace username owner,
        new_,
        eq_iff authz.console_ref authz.console_ref,
        eq_iff username username,
        eq_iff username owner,
      )
    ]

-- The patch of Authorise applies, and the update that it makes, sent by the user that it names, passes
-- the webhook's Validate exactly when the user does not own the console, or stands among its
-- authorisations already.
pub authorise_patch-validate_iff :
    (apply_patch : List Operation → ConsoleAuthorisation → Option ConsoleAuthorisation)
    → IsJsonPatch apply_patch
    → (authz : ConsoleAuthorisation) (namespace username owner : String)
    → (updated : ConsoleAuthorisation) × (apply_patch (authorise_patch namespace username) authz
        ≡ some updated)
      × ((validate (asked authz updated username owner) ≡ []) ↔ (
          (includes_subject authz.authorisations (authoriser namespace username) ≡ true)
          ⊎ (username ≢ owner)))
authorise_patch-validate_iff apply_patch rfc authz namespace username owner = (
  extended authz (authoriser namespace username),
  authorise_patch-applies apply_patch rfc authz namespace username,
  patched-validate_iff authz namespace username owner,
)
