-- ===== src/ConsoleController/Access/Keeping.antt =====
-- console_controller.go: the roles, bindings and authorisations touch nothing else of the cluster.
use theatre.Prelude.{List, Option}
use theatre.Prelude.Exec.Keeps.{Keeps, Keeps-pure, Keeps-lift, Keeps-wrapping, Keeps-bind}
use theatre.Kubernetes.{NamespacedName, ObjectMeta, Subject, Role, Client}
use theatre.Recutil.{DirectoryRoleBinding, DiffFunc}
use theatre.Recutil.Keeping.{ClientKeeps, create_or_update-Keeps}
use theatre.Console.{Console}
use theatre.Console.Template.{ConsoleTemplate}
use theatre.ConsoleAuthorisation.{ConsoleAuthorisation}
use theatre.ConsoleController.Access.{
  Cluster, create_or_update_owned, apply_role, apply_binding, apply_authorisation,
  create_or_update_user_rbac, create_or_update_service_rbac, create_authorisation_objects,
}

module _ {S V : Type 0} (view : S → V) (k : Cluster S) where
  pub create_or_update_owned-Keeps :
      {Obj : Type 0} (c : Client S Obj) (metadata_of : Obj → ObjectMeta)
      (with_metadata : ObjectMeta → Obj → Obj) (name_of : Obj → NamespacedName)
      (diff_func : DiffFunc Obj) (csl : Console) (expected : Obj)
      → ClientKeeps view c
      → Keeps view
          (create_or_update_owned k c metadata_of with_metadata name_of diff_func csl expected)
  unfolding create_or_update_owned
  create_or_update_owned-Keeps c metadata_of with_metadata name_of diff_func csl expected keeps =
      Keeps-bind view _ _ (Keeps-lift view _) λ metadata.
        Keeps-bind view _ _
          (Keeps-wrapping view "CreateOrUpdate failed" _ (
            create_or_update-Keeps view c keeps name_of diff_func
              (with_metadata metadata expected)))
          λ found. Keeps-pure view found.1

  -- The three clients keep what `view` sees.
  pub record AccessKeeps : Type 0 where
    pub role_calls : ClientKeeps view k.roles
    pub binding_calls : ClientKeeps view k.bindings
    pub authorisation_calls : ClientKeeps view k.authorisations

  module _ (keeps : AccessKeeps) where
    apply_role-Keeps : (csl : Console) (r : Role) → Keeps view (apply_role k csl r)
    unfolding apply_role
    apply_role-Keeps csl r = create_or_update_owned-Keeps k.roles _ _ _ _ csl r keeps.role_calls

    apply_binding-Keeps :
        (csl : Console) (b : DirectoryRoleBinding) → Keeps view (apply_binding k csl b)
    unfolding apply_binding
    apply_binding-Keeps csl b =
        create_or_update_owned-Keeps k.bindings _ _ _ _ csl b keeps.binding_calls

    apply_authorisation-Keeps :
        (csl : Console) (a : ConsoleAuthorisation) → Keeps view (apply_authorisation k csl a)
    unfolding apply_authorisation
    apply_authorisation-Keeps csl a =
        create_or_update_owned-Keeps k.authorisations _ _ _ _ csl a keeps.authorisation_calls

    pub create_or_update_user_rbac-Keeps :
        (tpl : ConsoleTemplate) (n : NamespacedName) (csl : Console)
        (authorisation : Option ConsoleAuthorisation)
        → Keeps view (create_or_update_user_rbac k tpl n csl authorisation)
    unfolding create_or_update_user_rbac
    create_or_update_user_rbac-Keeps tpl n csl authorisation =
        Keeps-bind view _ _ (apply_role-Keeps csl _) λ _. apply_binding-Keeps csl _

    pub create_or_update_service_rbac-Keeps :
        (tpl : ConsoleTemplate) (n : NamespacedName) (csl : Console)
        → Keeps view (create_or_update_service_rbac k tpl n csl)
    unfolding create_or_update_service_rbac
    create_or_update_service_rbac-Keeps tpl n csl =
        Keeps-bind view _ _ (apply_role-Keeps csl _) λ _. apply_binding-Keeps csl _

    pub create_authorisation_objects-Keeps :
        (csl : Console) (n : NamespacedName) (subjects : List Subject)
        → Keeps view (create_authorisation_objects k csl n subjects)
    unfolding create_authorisation_objects
    create_authorisation_objects-Keeps csl n subjects =
        Keeps-bind view _ _ (Keeps-wrapping view _ _ (apply_authorisation-Keeps csl _)) λ _.
          Keeps-bind view _ _ (Keeps-wrapping view _ _ (apply_role-Keeps csl _))
            λ _. Keeps-wrapping view _ _ (apply_binding-Keeps csl _)
