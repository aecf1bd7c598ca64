-- ===== src/Recutil/Diffs.antt =====
-- pkg/recutil/reconcile.go: the two diff functions owe nothing to `CreateOrUpdate`.
use theatre.Prelude.{List, arith, deep_equal_iff}
use theatre.Kubernetes.{
  NamespacedName, ObjectMeta, Subject, RoleRef, PolicyRule, Role, Rules-discrete, Subjects-discrete,
  RoleRef-discrete,
}
use theatre.Recutil.{DirectoryRoleBinding, role_diff, directory_role_binding_diff}
use theatre.Recutil.Converge.{IsDiff}

abbrev pub name_of_metadata : ObjectMeta → NamespacedName
name_of_metadata m = record { namespace = m.namespace; name = m.name }

abbrev pub role_name : Role → NamespacedName
role_name r = name_of_metadata r.metadata

abbrev pub role_content : Role → List PolicyRule
role_content r = r.rules

abbrev pub binding_name : DirectoryRoleBinding → NamespacedName
binding_name d = name_of_metadata d.metadata

abbrev pub binding_content : DirectoryRoleBinding → List Subject × RoleRef
binding_content d = (d.subjects, d.role_ref)

-- `RoleDiff` brings the rules of a role to the expected ones, keeps everything else of the role,
-- and asks for an update only if the rules differ.
pub role_diff-IsDiff : IsDiff role_diff role_name role_content
unfolding role_diff
role_diff-IsDiff = record {
  reaches = λ e x. ground (arith, deep_equal_iff Rules-discrete e.rules x.rules);
  keeps_name = λ e x. ground arith;
  settled = λ e x h. ground (arith, deep_equal_iff Rules-discrete e.rules x.rules);
  untouched = λ e x h. ground arith;
}

-- `DirectoryRoleBindingDiff` brings the subjects and the role reference of a binding to the
-- expected ones, and asks for an update only if one of them differs.
pub directory_role_binding_diff-IsDiff :
    IsDiff directory_role_binding_diff binding_name binding_content
unfolding directory_role_binding_diff
directory_role_binding_diff-IsDiff = record {
  reaches = λ e x. ground (
    arith,
    deep_equal_iff Subjects-discrete e.subjects x.subjects,
    deep_equal_iff RoleRef-discrete e.role_ref x.role_ref,
  );
  keeps_name = λ e x. ground arith;
  settled = λ e x h. ground (
    arith,
    deep_equal_iff Subjects-discrete e.subjects x.subjects,
    deep_equal_iff RoleRef-discrete e.role_ref x.role_ref,
  );
  untouched = λ e x h. ground arith;
}
