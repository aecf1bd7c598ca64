-- ===== src/ConsoleController/Access.antt =====
-- console_controller.go: the roles and bindings that give users, authorisers and the console itself
-- access, and the authorisation object of a console.
pub mod Grants
pub mod Keeping
use theatre.Prelude.{
  ℕ, ◌<>◌, ◌==◌, String, Option, none, some, List, [], ◌∷◌, ◌++◌, if◌then◌else◌, Result,
}
use theatre.Prelude.Exec.{Exec, pure, lift, wrapping, ◌>>=◌}
use theatre.Kubernetes.{NamespacedName, ObjectMeta, Subject, RoleRef, PolicyRule, Role, Client}
use theatre.Recutil.{
  DirectoryRoleBinding, DiffFunc, Outcome, create_or_update, role_diff, directory_role_binding_diff,
}
use theatre.Recutil.Diffs.{role_name, binding_name}
use theatre.Console.{Console}
use theatre.Console.Template.{ConsoleTemplate}
use theatre.ConsoleAuthorisation.{ConsoleAuthorisation}
use theatre.ConsoleController.Diffs.{authorisation_diff}
use theatre.ConsoleController.Diffs.Laws.{authorisation_name}

abbrev pub named : NamespacedName → List (String × String) → ObjectMeta
named n labels = record {
  name = n.name;
  namespace = n.namespace;
  labels = labels;
  annotations = [];
  owner_references = [];
  creation_timestamp = 0;
  deletion_timestamp = none;
}

-- A rule on one object by name.
abbrev pub rule : List String → String → List String → String → PolicyRule
rule verbs group resources object = record {
  verbs = verbs;
  api_groups = group ∷ [];
  resources = resources;
  resource_names = object ∷ [];
}

-- `buildServiceRole`
unfoldable pub build_service_role : NamespacedName → String → Role
build_service_role n pod_name = record {
  metadata = named n [];
  rules = rule ("get" ∷ []) "" ("pods" ∷ []) pod_name ∷ [];
}

abbrev role_ref_of : String → RoleRef
role_ref_of name = record { api_group = "rbac.authorization.k8s.io"; kind = "Role"; name = name }

-- `buildServiceRoleBinding`
unfoldable pub build_service_role_binding : NamespacedName → String → DirectoryRoleBinding
build_service_role_binding n service_account_name = record {
  metadata = named n [];
  subjects =
      record {
        kind = "ServiceAccount";
        api_group = "";
        name = if service_account_name == "" then "default" else service_account_name;
        namespace = "";
      }
      ∷ [];
  role_ref = role_ref_of n.name;
}

-- `buildUserRole`
unfoldable pub build_user_role : NamespacedName → String → Role
build_user_role n pod_name = record {
  metadata = named n [];
  rules =
      rule ("create" ∷ []) "" ("pods/exec" ∷ "pods/attach" ∷ []) pod_name
      ∷ rule ("get" ∷ []) "" ("pods/log" ∷ []) pod_name
      ∷ rule ("get" ∷ "delete" ∷ []) "" ("pods" ∷ []) pod_name
      ∷ [];
}

-- `buildUserDirectoryRoleBinding`
unfoldable pub build_user_directory_role_binding :
    NamespacedName → List Subject → DirectoryRoleBinding
build_user_directory_role_binding n subjects = record {
  metadata = named n [];
  subjects = subjects;
  role_ref = role_ref_of n.name;
}

-- The subjects of `createOrUpdateUserRbac`.
unfoldable pub attach_subjects :
    ConsoleTemplate → Console → Option ConsoleAuthorisation → List Subject
attach_subjects tpl csl authorisation =
    (tpl.spec.additional_attach_subjects
      ++ record { kind = "User"; api_group = ""; name = csl.spec.user; namespace = "" } ∷ [])
    ++ elim authorisation [ none ↦ [] | some a ↦ a.authorisations ]

-- The role of `createAuthorisationObjects`.
unfoldable pub authorisation_role : NamespacedName → String → Role
authorisation_role rbac_name console_name = record {
  metadata = named rbac_name [];
  rules =
      rule ("get" ∷ "patch" ∷ "update" ∷ []) "workloads.crd.gocardless.com"
        ("consoleauthorisations" ∷ []) console_name
      ∷ [];
}

-- The cluster as the access objects need it. `set_controller` is `SetControllerReference`, which fails
-- when the object has another controller.
pub record Cluster (S : Type 0) : Type 0 where
  pub roles : Client S Role
  pub bindings : Client S DirectoryRoleBinding
  pub authorisations : Client S ConsoleAuthorisation
  pub set_controller : Console → ObjectMeta → Result ObjectMeta

module _ {S : Type 0} (k : Cluster S) where
  -- `createOrUpdate` for an object that the console owns; what it logs has no part here.
  unfoldable pub create_or_update_owned :
      {Obj : Type 0}
      → Client S Obj
      → (Obj → ObjectMeta)
      → (ObjectMeta → Obj → Obj)
      → (Obj → NamespacedName)
      → DiffFunc Obj
      → Console
      → Obj
      → Exec S Obj
  create_or_update_owned c metadata_of with_metadata name_of diff_func csl expected = do
    metadata ← lift (k.set_controller csl (metadata_of expected))
    (_, stored) ←
        wrapping "CreateOrUpdate failed"
          (create_or_update c name_of diff_func (with_metadata metadata expected))
    pure stored

  apply_role : Console → Role → Exec S Role
  apply_role =
      create_or_update_owned k.roles (λ r. r.metadata) (λ m r. record r { metadata = m }) role_name
        role_diff

  apply_binding : Console → DirectoryRoleBinding → Exec S DirectoryRoleBinding
  apply_binding =
      create_or_update_owned k.bindings (λ b. b.metadata) (λ m b. record b { metadata = m })
        binding_name directory_role_binding_diff

  apply_authorisation : Console → ConsoleAuthorisation → Exec S ConsoleAuthorisation
  apply_authorisation =
      create_or_update_owned k.authorisations (λ a. a.metadata) (λ m a. record a { metadata = m })
        authorisation_name authorisation_diff

  -- `createOrUpdateUserRbac`
  unfoldable pub create_or_update_user_rbac :
      ConsoleTemplate
      → NamespacedName
      → Console
      → Option ConsoleAuthorisation
      → Exec S DirectoryRoleBinding
  unfolding apply_role apply_binding
  create_or_update_user_rbac tpl n csl authorisation = do
    _ ← apply_role csl (build_user_role n csl.status.pod_name)
    apply_binding csl (build_user_directory_role_binding n (attach_subjects tpl csl authorisation))

  -- `createOrUpdateServiceRbac`
  unfoldable pub create_or_update_service_rbac :
      ConsoleTemplate → NamespacedName → Console → Exec S DirectoryRoleBinding
  unfolding apply_role apply_binding
  create_or_update_service_rbac tpl n csl = do
    let rbac_name : NamespacedName = record n { name = n.name <> "-svc" }
    _ ← apply_role csl (build_service_role rbac_name csl.status.pod_name)
    apply_binding csl
        (build_service_role_binding rbac_name tpl.spec.template.spec.service_account_name)

  -- `createAuthorisationObjects`
  unfoldable pub create_authorisation_objects :
      Console → NamespacedName → List Subject → Exec S DirectoryRoleBinding
  unfolding apply_role apply_binding apply_authorisation
  create_authorisation_objects csl n subjects = do
    let rbac_name : NamespacedName = record n { name = n.name <> "-authorisation" }
    _ ← wrapping "failed to create consoleauthorisation" (
        apply_authorisation csl (record {
          metadata = named n csl.metadata.labels;
          console_ref = n.name;
          authorisations = [];
        }))
    _ ←
        wrapping "failed to create role for consoleauthorisation"
          (apply_role csl (authorisation_role rbac_name n.name))
    wrapping "failed to create directory rolebinding for consoleauthorisation"
        (apply_binding csl (build_user_directory_role_binding rbac_name subjects))
