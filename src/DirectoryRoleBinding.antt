-- ===== src/DirectoryRoleBinding.antt =====
-- internal/controller/rbac/directoryrolebinding_controller.go: a role binding that follows the
-- members of directory groups. Cluster and directories are parts of one world `W`.
pub mod Resolving
pub mod Reconciling
use theatre.Prelude.{
  ℕ, String, Bool, true, false, ◌&&◌, List, [], ◌∷◌, ◌++◌, Option, none, some, Result, ok, err,
  wrapped, if◌then◌else◌,
}
use theatre.Prelude.Results.{api, not_found, wrap}
use theatre.Prelude.Exec.{Exec, pure, raise, lift, wrapping, ◌>>=◌}
use theatre.Kubernetes.{NamespacedName, ObjectMeta, Subject, RoleRef, RoleBinding, Client}
use theatre.Rbac.{includes_subject, diff}
use theatre.Directory.{Directory, DirectoryProvider}
use theatre.Directory
use theatre.Recutil.{DirectoryRoleBinding}

-- The inner loop of `resolve`: members that are not there yet are appended.
add_members : List Subject → List Subject → List Subject
add_members out [] = out
add_members out (member ∷ members) =
    add_members (if includes_subject out member then out else out ++ member ∷ []) members

-- The user subject that `membersOf` makes of a member.
unfoldable pub user_subject : String → Subject
user_subject member = record {
  kind = "User";
  api_group = "rbac.authorization.k8s.io";
  name = member;
  namespace = "";
}

pub user_subjects : List String → List Subject
unfolding user_subject
user_subjects [] = []
user_subjects (member ∷ members) = user_subject member ∷ user_subjects members

module _ {W : Type 0} where
  -- `membersOf`
  members_of : Directory W → String → Exec W (List Subject)
  unfolding user_subjects
  members_of directory group = do members ← directory group; pure (user_subjects members)

  -- The outer loop of `resolve`, with what it has so far.
  resolve_from : DirectoryProvider W → List Subject → List Subject → Exec W (List Subject)
  resolve_from provider out [] = pure out
  resolve_from provider out (subject ∷ rest) = elim (Directory.get provider subject.kind) [
    | none ↦ resolve_from provider (out ++ subject ∷ []) rest
    | some directory ↦ do
      members ← members_of directory subject.name
      resolve_from provider (add_members out members) rest
  ]

  unfoldable pub resolve : DirectoryProvider W → List Subject → Exec W (List Subject)
  unfolding resolve_from members_of add_members
  resolve provider subjects = resolve_from provider [] subjects

-- Whether the reconciler changes the subjects: one of the two differences is not empty.
abbrev is_empty : List Subject → Bool
is_empty [] = true
is_empty (_ ∷ _) = false

abbrev pub name_of : RoleBinding → NamespacedName
name_of rb = record { namespace = rb.metadata.namespace; name = rb.metadata.name }

abbrev pub identifier : DirectoryRoleBinding → NamespacedName
identifier drb = record { namespace = drb.metadata.namespace; name = drb.metadata.name }

new_role_binding : DirectoryRoleBinding → ObjectMeta → RoleBinding
new_role_binding drb metadata = record {
  metadata = metadata;
  role_ref = drb.role_ref;
  subjects = [];
}

-- The metadata of the role binding that is created when there is none, without its owner.
bare_metadata : DirectoryRoleBinding → ObjectMeta
bare_metadata drb = record {
  name = drb.metadata.name;
  namespace = drb.metadata.namespace;
  labels = drb.metadata.labels;
  annotations = [];
  owner_references = [];
  creation_timestamp = 0;
  deletion_timestamp = none;
}

module _ {W : Type 0} (c : Client W RoleBinding) where
  update_subjects : RoleBinding → List Subject → Exec W (Unit {0})
  update_subjects rb subjects =
      if is_empty (diff subjects rb.subjects) && is_empty (diff rb.subjects subjects)
      then pure tt
      else do
        _ ← wrapping "failed to update RoleBinding" (c.update (record rb { subjects = subjects }))
        pure tt

-- `controllerutil.SetControllerReference`, on the metadata of the owner and of the object, is a
-- parameter.
module _ {W : Type 0} (c : Client W RoleBinding)
    (set_controller_reference : ObjectMeta → ObjectMeta → Result ObjectMeta) where
  create_role_binding : DirectoryRoleBinding → Exec W RoleBinding
  unfolding new_role_binding bare_metadata
  create_role_binding drb = do
    metadata ← lift (
        wrapped "failed to set controller reference"
          (set_controller_reference drb.metadata (bare_metadata drb)))
    wrapping "failed to create RoleBinding" (c.create (new_role_binding drb metadata))

  unfoldable pub find_role_binding : DirectoryRoleBinding → Result RoleBinding → Exec W RoleBinding
  unfolding create_role_binding
  find_role_binding drb (ok rb) = pure rb
  find_role_binding drb (err (api not_found)) = create_role_binding drb
  find_role_binding drb (err e) = raise (wrap "failed to get DirectoryRoleBinding" e)

  -- `ReconcileObject`; the result is `RequeueAfter`.
  unfoldable pub reconcile_object : DirectoryProvider W → ℕ → DirectoryRoleBinding → Exec W ℕ
  unfolding find_role_binding update_subjects
  reconcile_object provider refresh_interval drb = do
    rb ← (λ w. find_role_binding drb (c.get (identifier drb) w) w)
    subjects ← wrapping "failed to resolve subjects" (resolve provider drb.subjects)
    _ ← update_subjects c rb subjects
    pure refresh_interval
