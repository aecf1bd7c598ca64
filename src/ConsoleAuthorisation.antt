-- ===== src/ConsoleAuthorisation.antt =====
-- console_authorisation_types.go, and internal/webhook/workloads/v1alpha1/
-- console_authorisation_webhook.go: who may add which authorisation to a console.
pub mod Updating
pub mod Counting
use theatre.Prelude.{
  ℕ, String, ◌==◌, Bool, true, false, not, ◌&&◌, ◌||◌, Option, none, some, List, [], ◌∷◌, ◌++◌,
  Result, ok, err, any, leb, ltb, length, if◌then◌else◌,
}
use theatre.Kubernetes.{NamespacedName, ObjectMeta, Subject, Client}
use theatre.Rbac.{diff}
use theatre.Console.{Console}
use theatre.Console.Template.{ConsoleAuthorisationRule}

pub record ConsoleAuthorisation : Type 0 where
  pub metadata : ObjectMeta
  pub console_ref : String
  pub authorisations : List Subject

-- The errors that `ConsoleAuthorisationUpdate.Validate` collects.
pub data UpdateError : Type 0 where
  immutable_console_ref append_one_subject only_current_user own_console : UpdateError

pub record ConsoleAuthorisationUpdate : Type 0 where
  pub existing_auth : ConsoleAuthorisation
  pub updated_auth : ConsoleAuthorisation
  pub user : String
  pub owner : String

abbrev when : Bool → UpdateError → List UpdateError
when b e = if b then e ∷ [] else []

module _ (u : ConsoleAuthorisationUpdate) where
  unfoldable pub added : List Subject
  added = diff u.updated_auth.authorisations u.existing_auth.authorisations

  unfoldable pub removed : List Subject
  removed = diff u.existing_auth.authorisations u.updated_auth.authorisations

  -- `Validate`; each loop over `add` breaks at the first subject that fails.
  unfoldable pub validate : List UpdateError
  unfolding added removed
  validate =
      when (not (u.updated_auth.console_ref == u.existing_auth.console_ref)) immutable_console_ref
      ++ (when (ltb 1 (length added) || ltb 0 (length removed)) append_one_subject
          ++ (when (any (λ s. not (s.name == u.user)) added) only_current_user
              ++ when (any (λ s. s.name == u.owner) added) own_console))

-- What the webhook answers.
pub data Response : Type 0 where
  -- `admission.Errored` with its status code
  errored : ℕ → Response
  -- `admission.ValidationResponse`
  allowed : Response
  denied : String → Response

-- The end of `Handle`: the response, and the user whose authorisation is published for the console.
conclude : Console → String → List UpdateError → Response × Option (Console × String)
conclude csl user [] = (allowed, some (csl, user))
conclude csl user (_ ∷ _) = (denied "the console authorisation spec is invalid", none)

update_of :
    ConsoleAuthorisation → ConsoleAuthorisation → String → Console → ConsoleAuthorisationUpdate
update_of updated_auth existing_auth user csl = record {
  existing_auth = existing_auth;
  updated_auth = updated_auth;
  user = user;
  owner = csl.spec.user;
}

check_console :
    ConsoleAuthorisation
    → ConsoleAuthorisation
    → String
    → Result Console
    → Response × Option (Console × String)
unfolding conclude update_of
check_console updated_auth existing_auth user (err e) =
    (denied "failed to retrieve console for the authorisation", none)
check_console updated_auth existing_auth user (ok csl) =
    conclude csl user (validate (update_of updated_auth existing_auth user csl))

-- `Handle`, from the decoded objects of the request. The console is read from the cluster `s`.
unfoldable pub handle :
    {S : Type 0}
    → (NamespacedName → S → Result Console)
    → Result ConsoleAuthorisation
    → Result ConsoleAuthorisation
    → String
    → S
    → Response × Option (Console × String)
unfolding check_console
handle get_console (err e) existing user s = (errored 400, none)
handle get_console (ok updated_auth) (err e) user s = (errored 400, none)
handle get_console (ok updated_auth) (ok existing_auth) user s =
    check_console updated_auth existing_auth user (
      get_console
        (record { namespace = existing_auth.metadata.namespace; name = existing_auth.console_ref })
        s)

-- `isConsoleAuthorised` of console_controller.go
unfoldable pub is_console_authorised :
    Option ConsoleAuthorisationRule → Option ConsoleAuthorisation → Bool
is_console_authorised none auth = true
is_console_authorised (some rule) none = false
is_console_authorised (some rule) (some auth) =
    leb rule.authorisers.authorisations_required (length auth.authorisations)
