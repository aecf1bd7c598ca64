-- ===== src/Examples/Reconciling.antt =====
-- The reconcilers, over a cluster that is a list of objects, the newest first.
use theatre.Prelude.{
  if◌then◌else◌, ◌&&◌, map, ℕ, false, true, ◌≡◌, refl, sym, ◌∙◌, ap, inl, inr, String, ◌==◌, Option,
  none, some, List, [], ◌∷◌, ok, Result, arith, Bool-cases, lookup,
}
use theatre.Prelude.Exec.{Exec, pure}
use theatre.Kubernetes.{NamespacedName, ObjectMeta, Subject, RoleRef, Role, RoleBinding, Client}
use theatre.Rbac.{includes_subject, diff, same_subject}
use theatre.Directory.{Directory, DirectoryProvider, fake_members_of}
use theatre.Directory
use theatre.Recutil.{
  create, unchanged, role_diff, create_or_update, DirectoryRoleBinding, Frame, request_start, start,
  complete, not_found_event, resolve_and_reconcile,
}
use theatre.Recutil.Converge.{create_or_update_converges, create_or_update_idempotent}
use theatre.Recutil.Diffs.{role_name, role_content, role_diff-IsDiff}
use theatre.DirectoryRoleBinding.{user_subject, resolve, reconcile_object, name_of, identifier}
use theatre.DirectoryRoleBinding.Resolving.{Expansion}
use theatre.DirectoryRoleBinding.Reconciling.{
  IsSound, ungrouped, ungrouped_subjects, world_found, reconcile_object-Expansion,
  reconcile_object_settled,
}
use theatre.Examples.{meta, user, key}
use theatre.Examples.Shelf.{shelved, shelf, filling_shelf, filling_shelf-IsStore, shelf-IsStore}

abbrev role : Role
role = record { metadata = meta "console"; rules = [] }

created :
    create_or_update (shelf role_name) role_name role_diff role [] ≡ (ok (create, role), role ∷ [])
unfolding create_or_update shelved
created = refl

create_or_update_converges_example :
    (shelved role_name (key "console") (role ∷ []) ≡ ok role)
    × (role_content role ≡ role_content role)
create_or_update_converges_example =
    create_or_update_converges (shelf role_name) role_name role_content
      (shelf-IsStore role_name role_content) role_diff role_diff-IsDiff role create role []
      (role ∷ []) created

create_or_update_idempotent_example :
    create_or_update (shelf role_name) role_name role_diff role (role ∷ [])
    ≡ (ok (unchanged, role), role ∷ [])
create_or_update_idempotent_example =
    create_or_update_idempotent (shelf role_name) role_name role_content
      (shelf-IsStore role_name role_content) role_diff role_diff-IsDiff role create role []
      (role ∷ []) created

abbrev frame : Frame (List Role)
frame = record { state = role ∷ []; events = []; errors_total = 4; records = false }

-- An inner function that counts nothing and answers a number of seconds.
abbrev inner : NamespacedName → Role → Exec (List Role) ℕ
inner n r = pure 30

abbrev deletion : Role → Option ℕ
deletion r = r.metadata.deletion_timestamp

-- What is logged for a role that is there, and for one that is not.
found_role :
    (resolve_and_reconcile (shelf role_name) deletion 0 inner (key "console") frame).1.events
    ≡ (request_start, false) ∷ (start, true) ∷ (complete, true) ∷ []
unfolding resolve_and_reconcile shelved
found_role = refl

missing_role :
    (resolve_and_reconcile (shelf role_name) deletion 0 inner (key "other") frame).1.events
    ≡ (request_start, false) ∷ (not_found_event, false) ∷ (complete, false) ∷ []
unfolding resolve_and_reconcile shelved
missing_role = refl

abbrev provider : DirectoryProvider (List RoleBinding)
provider = ("GoogleGroup", fake_members_of (("infra", "bob" ∷ []) ∷ [])) ∷ []

abbrev reference : RoleRef
reference = record { api_group = ""; kind = "Role"; name = "console" }

abbrev group : Subject
group = record { kind = "GoogleGroup"; api_group = ""; name = "infra"; namespace = "" }

abbrev bob : Subject
bob = record {
  kind = "User";
  api_group = "rbac.authorization.k8s.io";
  name = "bob";
  namespace = "";
}

expanded : resolve provider (group ∷ user "alice" ∷ []) [] ≡ (ok (bob ∷ user "alice" ∷ []), [])
unfolding resolve Directory.get lookup includes_subject same_subject fake_members_of user_subject
expanded = refl

abbrev binding : DirectoryRoleBinding
binding = record {
  metadata = meta "console";
  subjects = group ∷ user "alice" ∷ [];
  role_ref = reference;
}

-- The API gives a user its API group.
abbrev with_group : Subject → Subject
with_group s =
    if s.kind == "User" && s.api_group == ""
    then record s { api_group = "rbac.authorization.k8s.io" }
    else s

abbrev with_groups : RoleBinding → RoleBinding
with_groups rb = record rb { subjects = map with_group rb.subjects }

ungrouped-with_group : (s : Subject) → ungrouped (with_group s) ≡ ungrouped s
ungrouped-with_group s = elim (Bool-cases (s.kind == "User" && s.api_group == "")) [
  | inl h ↦ rw h refl
  | inr h ↦ rw h refl
]

ungrouped-with_groups :
    (subjects : List Subject) → map ungrouped (map with_group subjects) ≡ map ungrouped subjects
ungrouped-with_groups [] = refl
ungrouped-with_groups (s ∷ subjects) = cc (ungrouped-with_group s, ungrouped-with_groups subjects)

abbrev cluster : Client (List RoleBinding) RoleBinding
cluster = filling_shelf with_groups name_of

abbrev owned : ObjectMeta → ObjectMeta → Result ObjectMeta
owned owner m = ok m

abbrev fresh_binding : RoleBinding
fresh_binding = record {
  metadata = record (meta "console") { creation_timestamp = 0 };
  role_ref = reference;
  subjects = [];
}

abbrev filled_binding : RoleBinding
filled_binding = record fresh_binding { subjects = bob ∷ with_group (user "alice") ∷ [] }

reconciled :
    reconcile_object cluster owned provider 300 binding []
    ≡ (ok 300, filled_binding ∷ fresh_binding ∷ [])
unfolding reconcile_object resolve shelved Directory.get lookup includes_subject diff same_subject
    fake_members_of
reconciled = refl

abbrev fake : Directory (List RoleBinding)
fake = fake_members_of (("infra", "bob" ∷ []) ∷ [])

only_fake :
    (kind : String) (d : Directory (List RoleBinding))
    → Directory.get provider kind ≡ some d
    → fake ≡ d
unfolding Directory.get lookup
only_fake kind d e = elim (Bool-cases ("GoogleGroup" == kind)) [
  | inl h ↦ let here : some fake ≡ some d = rw h at e in cc here
  | inr h ↦ let here : none ≡ some d = rw h at e in cc here
]

fake_keeps : (name : String) (w : List RoleBinding) → (fake name w).1 ≡ w
unfolding fake_members_of
fake_keeps name w = refl

sound : IsSound cluster provider owned
sound = record {
  store =
      filling_shelf-IsStore with_groups name_of ungrouped_subjects (λ rb. refl)
        (λ rb. ungrouped-with_groups rb.subjects);
  same_name = λ owner m m' e. ground (arith, e);
  directory_apart = λ kind name d n w e.
      ap (λ f. shelved name_of n (f name w).1) (sym (only_fake kind d e))
      ∙ ap (shelved name_of n) (fake_keeps name w);
}

reconcile_object-Expansion_example :
    (rb : RoleBinding) × (flat : List Subject) × (shelved name_of
        (key "console")
        (filled_binding ∷ fresh_binding ∷ [])
      ≡ ok rb)
    × Expansion provider
        (group ∷ user "alice" ∷ [])
        (world_found cluster provider owned binding [])
        flat
        (resolve provider
          (group ∷ user "alice" ∷ [])
          (world_found cluster provider owned binding [])).1
    × ((s : Subject) → includes_subject rb.subjects s ≡ includes_subject flat s)
    × (◌≡◌ {A = ℕ} 300 300)
reconcile_object-Expansion_example =
    reconcile_object-Expansion cluster provider owned sound 300 300 binding []
      (filled_binding ∷ fresh_binding ∷ []) reconciled

found_binding : cluster.get (identifier binding) (filled_binding ∷ []) ≡ ok filled_binding
unfolding shelved
found_binding = refl

expanded_binding :
    resolve provider (group ∷ user "alice" ∷ []) (filled_binding ∷ [])
    ≡ (ok (bob ∷ user "alice" ∷ []), filled_binding ∷ [])
unfolding resolve Directory.get lookup includes_subject same_subject fake_members_of user_subject
expanded_binding = refl

settled_binding :
    (s : Subject)
    → includes_subject filled_binding.subjects s ≡ includes_subject (bob ∷ user "alice" ∷ []) s
unfolding includes_subject same_subject
settled_binding s = refl

reconcile_object_settled_example :
    reconcile_object cluster owned provider 300 binding (filled_binding ∷ [])
    ≡ (ok 300, filled_binding ∷ [])
reconcile_object_settled_example =
    reconcile_object_settled cluster provider owned 300 binding filled_binding
      (bob ∷ user "alice" ∷ []) (filled_binding ∷ []) (filled_binding ∷ []) found_binding
      expanded_binding settled_binding
