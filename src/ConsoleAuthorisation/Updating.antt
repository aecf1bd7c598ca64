-- ===== src/ConsoleAuthorisation/Updating.antt =====
-- console_authorisation_webhook.go: what an accepted update can have changed.
use theatre.Prelude.{
  ◌≡◌, ◌≢◌, refl, ◌↔◌, ◌≤◌, ◌⊎◌, inl, inr, sym, ◌∙◌, ap, String, ◌==◌, eq_iff, Bool, true, false,
  not, ◌||◌, List, [], ◌∷◌, ◌++◌, Option, some, ok, err, Result, length, arith, any, ltb,
  Bool-cases,
}
use theatre.Kubernetes.{NamespacedName, Subject}
use theatre.Rbac.{includes_subject, diff, same_subject}
use theatre.Rbac.Subjects.{
  includes_subject-diff, diff-eq-nil_iff, includes_subject-cons, same_subject_iff,
  includes_subject-nil,
}
use theatre.Console.{Console}
use theatre.ConsoleAuthorisation.{
  ConsoleAuthorisation, ConsoleAuthorisationUpdate, UpdateError, added, removed, validate, when,
  allowed, handle, check_console, conclude, update_of,
}

four_checks :
    (a b c d : Bool) (e f g h : UpdateError)
    → (when a e ++ (when b f ++ (when c g ++ when d h)) ≡ [])
      ↔ ((a ≡ false) × (b ≡ false) × (c ≡ false) × (d ≡ false))
four_checks a b c d e f g h = ground arith

eq-nil_of_length : (l : List Subject) → ltb 0 (length l) ≡ false → l ≡ []
eq-nil_of_length [] h = refl
eq-nil_of_length (x ∷ l) h = absurd (ground arith)

-- Whoever is in a list whose names all pass the test has the user's name, and not the owner's.
any_head :
    (p : Subject → Bool) (x : Subject) (l : List Subject) → any p (x ∷ l) ≡ false → p x ≡ false
any_head p x l h = ground arith

name_of_added :
    (user : String) (l : List Subject) (s : Subject)
    → any (λ x. not (x.name == user)) l ≡ false
    → includes_subject l s ≡ true
    → s.name ≡ user
name_of_added user [] s h i = cc (i, includes_subject-nil s)
name_of_added user (x ∷ l) s h i = elim (Bool-cases (same_subject x s)) [
  | inl same ↦
      let (_, name, _) = (same_subject_iff x s).0 same in
      sym name ∙ (eq_iff x.name user).0 (ground arith)
  | inr other ↦ name_of_added user l s (ground arith) (ground (arith, includes_subject-cons x l s))
]

not_owner_of_added :
    (owner : String) (l : List Subject) (s : Subject)
    → any (λ x. x.name == owner) l ≡ false
    → includes_subject l s ≡ true
    → s.name ≢ owner
not_owner_of_added owner [] s h i = λ e. cc (i, includes_subject-nil s)
not_owner_of_added owner (x ∷ l) s h i = elim (Bool-cases (same_subject x s)) [
  | inl same ↦ λ e.
      let (_, name, _) = (same_subject_iff x s).0 same in
      cc ((eq_iff x.name owner).1 (name ∙ e), any_head (λ y. y.name == owner) x l h)
  | inr other ↦
      not_owner_of_added owner l s (ground arith) (ground (arith, includes_subject-cons x l s))
]

checks :
    (u : ConsoleAuthorisationUpdate)
    → validate u ≡ []
    → (not (u.updated_auth.console_ref == u.existing_auth.console_ref) ≡ false)
      × ((ltb 1 (length (added u)) || ltb 0 (length (removed u))) ≡ false)
      × (any (λ s. not (s.name == u.user)) (added u) ≡ false)
      × (any (λ s. s.name == u.owner) (added u) ≡ false)
unfolding validate
checks u e = (four_checks _ _ _ _ _ _ _ _).0 e

-- What a valid update has done.
pub record IsLegal (u : ConsoleAuthorisationUpdate) : Type 0 where
  pub same_console : u.updated_auth.console_ref ≡ u.existing_auth.console_ref
  -- Nobody's authorisation is taken away.
  pub kept :
      (s : Subject)
      → includes_subject u.existing_auth.authorisations s ≡ true
      → includes_subject u.updated_auth.authorisations s ≡ true
  -- Whoever is new is the user that makes the request, and does not own the console.
  pub fresh :
      (s : Subject)
      → includes_subject u.updated_auth.authorisations s ≡ true
      → (includes_subject u.existing_auth.authorisations s ≡ true)
        ⊎ ((s.name ≡ u.user) × (u.user ≢ u.owner))
  pub at_most_one : length (added u) ≤ 1

-- An update that passes `Validate` keeps the console and every authorisation that was there, and
-- adds at most one subject, which is the user and not the console's owner.
pub validate-IsLegal : (u : ConsoleAuthorisationUpdate) → validate u ≡ [] → IsLegal u
validate-IsLegal u e =
    let old = u.existing_auth.authorisations in
    let new = u.updated_auth.authorisations in
    let (ref, counts, mine, others) = checks u e in
    record {
      same_console =
          (eq_iff u.updated_auth.console_ref u.existing_auth.console_ref).0 (ground arith);
      kept =
          (diff-eq-nil_iff old new).0
            (eq-nil_of_length (diff old new) (unfold removed in ground arith));
      fresh = λ s i. elim (Bool-cases (includes_subject old s)) [
        | inl there ↦ inl there
        | inr new_ ↦
            let add : includes_subject (added u) s ≡ true =
              unfold added in ground (arith, includes_subject-diff new old s) in
            let name = name_of_added u.user (added u) s mine add in
            inr (name, λ o. not_owner_of_added u.owner (added u) s others add (name ∙ o))
      ];
      at_most_one = ground arith;
    }

conclude-allowed :
    (csl : Console) (user : String) (errors : List UpdateError)
    (published : Option (Console × String))
    → conclude csl user errors ≡ (allowed, published)
    → (errors ≡ []) × (published ≡ some (csl, user))
unfolding conclude
conclude-allowed csl user [] published e = (refl, sym (ap (λ p. p.1) e))
conclude-allowed csl user (x ∷ errors) published e = cc

check_console-allowed :
    (updated_auth existing_auth : ConsoleAuthorisation) (user : String) (found : Result Console)
    (published : Option (Console × String))
    → check_console updated_auth existing_auth user found ≡ (allowed, published)
    → (csl : Console) × (found ≡ ok csl)
      × (published ≡ some (csl, user))
      × IsLegal (update_of updated_auth existing_auth user csl)
unfolding check_console
check_console-allowed updated_auth existing_auth user (ok csl) published e =
    let u = update_of updated_auth existing_auth user csl in
    let (valid, p) = conclude-allowed csl user (validate u) published e in
    (csl, refl, p, validate-IsLegal u valid)
check_console-allowed updated_auth existing_auth user (err x) published e = cc

-- When the webhook allows an update, the console exists, the update is legal for its owner, and the
-- authorisation of the user is published for that console.
pub handle-IsLegal :
    {S : Type 0} (get_console : NamespacedName → S → Result Console)
    (updated_auth existing_auth : ConsoleAuthorisation) (user : String) (s : S)
    (published : Option (Console × String))
    → handle get_console (ok updated_auth) (ok existing_auth) user s ≡ (allowed, published)
    → (csl : Console) × (get_console
          (record {
            namespace = existing_auth.metadata.namespace;
            name = existing_auth.console_ref;
          })
          s
        ≡ ok csl)
      × (published ≡ some (csl, user))
      × IsLegal (record {
        existing_auth = existing_auth;
        updated_auth = updated_auth;
        user = user;
        owner = csl.spec.user;
      })
unfolding handle
handle-IsLegal get_console updated_auth existing_auth user s published e =
    unfold update_of in check_console-allowed updated_auth existing_auth user _ published e
