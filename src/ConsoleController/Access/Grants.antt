-- ===== src/ConsoleController/Access/Grants.antt =====
-- console_controller.go: what the roles allow.
use theatre.Prelude.{◌≡◌, ◌↔◌, ◌⊎◌, sym, String, ◌==◌, eq_iff, Bool, true, ◌&&◌, List, any, arith}
use theatre.Kubernetes.{NamespacedName, PolicyRule, Role}
use theatre.ConsoleController.Access.{build_user_role, build_service_role}

-- The API's reading of a rule that names its objects: the verb, the group, the resource and the name
-- are all listed.
abbrev contains : List String → String → Bool
contains l x = any (λ y. y == x) l

abbrev pub allows : PolicyRule → String → String → String → String → Bool
allows r verb group resource object =
    contains r.verbs verb
    && contains r.api_groups group
    && contains r.resources resource
    && contains r.resource_names object

abbrev pub grants : Role → String → String → String → String → Bool
grants role verb group resource object = any (λ r. allows r verb group resource object) role.rules

-- What a console's users may do with a pod: run a command in it, attach to it, read its logs, read it
-- and delete it.
abbrev pub IsPodAccess : String → String → Type 0
IsPodAccess verb resource =
    ((verb ≡ "create") × ((resource ≡ "pods/exec") ⊎ (resource ≡ "pods/attach")))
    ⊎ (((verb ≡ "get") × ((resource ≡ "pods/log") ⊎ (resource ≡ "pods")))
        ⊎ ((verb ≡ "delete") × (resource ≡ "pods")))

-- The tests of a role on its texts, as the equations that they decide.
swapped : (s t : String) → ((s == t) ≡ true) ↔ (t ≡ s)
swapped s t = (λ h. sym ((eq_iff s t).0 h), λ h. (eq_iff s t).1 (sym h))

-- The role of a console's users allows them exactly these operations, on the pod of the console and
-- on no other object.
pub build_user_role-grants_iff :
    (n : NamespacedName) (pod_name verb group resource object : String)
    → (grants (build_user_role n pod_name) verb group resource object ≡ true)
      ↔ ((object ≡ pod_name) × (group ≡ "") × IsPodAccess verb resource)
unfolding build_user_role
build_user_role-grants_iff n pod_name verb group resource object = ground (
  arith,
  swapped pod_name object,
  swapped "" group,
  swapped "create" verb,
  swapped "get" verb,
  swapped "delete" verb,
  swapped "pods/exec" resource,
  swapped "pods/attach" resource,
  swapped "pods/log" resource,
  swapped "pods" resource,
)

-- The role of the console's own service account allows it to read its pod, and nothing else.
pub build_service_role-grants_iff :
    (n : NamespacedName) (pod_name verb group resource object : String)
    → (grants (build_service_role n pod_name) verb group resource object ≡ true)
      ↔ ((object ≡ pod_name) × (group ≡ "") × (verb ≡ "get") × (resource ≡ "pods"))
unfolding build_service_role
build_service_role-grants_iff n pod_name verb group resource object =
    ground (
      arith,
      swapped pod_name object,
      swapped "" group,
      swapped "get" verb,
      swapped "pods" resource,
    )
