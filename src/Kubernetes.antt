-- ===== src/Kubernetes.antt =====
-- The Kubernetes objects that the controllers and webhooks handle, with the fields that their code
-- reads or writes, and the API client as an interface: what it stores is the cluster's business.
-- Slices are lists (a nil slice is the empty one), maps are association lists, times are
-- nanoseconds since an epoch, and a pointer is an `Option`.
pub mod Workload
use theatre.Prelude.{ℕ, String, Option, List, Bool, Result, ℕ_discrete, String-discrete, Failure}
use theatre.Prelude.Exec.{Exec}

pub record NamespacedName : Type 0 where
  pub namespace : String
  pub name : String

pub record OwnerReference : Type 0 where
  pub kind : String
  pub name : String
  pub controller : Bool

pub record ObjectMeta : Type 0 where
  pub name : String
  pub namespace : String
  pub labels : List (String × String)
  pub annotations : List (String × String)
  pub owner_references : List OwnerReference
  pub creation_timestamp : ℕ
  pub deletion_timestamp : Option ℕ

pub record Subject : Type 0 where
  pub kind : String
  pub api_group : String
  pub name : String
  pub namespace : String

pub record RoleRef : Type 0 where
  pub api_group : String
  pub kind : String
  pub name : String

pub record PolicyRule : Type 0 where
  pub verbs : List String
  pub api_groups : List String
  pub resources : List String
  pub resource_names : List String

pub record Role : Type 0 where
  pub metadata : ObjectMeta
  pub rules : List PolicyRule

pub record RoleBinding : Type 0 where
  pub metadata : ObjectMeta
  pub role_ref : RoleRef
  pub subjects : List Subject

-- Equality of texts and of the parts that `reflect.DeepEqual` compares.
unfoldable pub Labels-discrete : Discrete (List (String × String))
unfolding String-discrete
Labels-discrete = hlevel String-discrete

unfoldable pub OwnerReferences-discrete : Discrete (List OwnerReference)
unfolding String-discrete
OwnerReferences-discrete = hlevel String-discrete

unfoldable pub Subjects-discrete : Discrete (List Subject)
unfolding String-discrete
Subjects-discrete = hlevel String-discrete

unfoldable pub RoleRef-discrete : Discrete RoleRef
unfolding String-discrete
RoleRef-discrete = hlevel String-discrete

unfoldable pub Rules-discrete : Discrete (List PolicyRule)
unfolding String-discrete
Rules-discrete = hlevel String-discrete

-- The client for one kind of object, over the state `S` of the cluster. `create` and `update`
-- return the object as the server stored it, which is what the Go client writes into its argument.
pub record Client (S Obj : Type 0) : Type 0 where
  pub get : NamespacedName → S → Result Obj
  pub create : Obj → Exec S Obj
  pub update : Obj → Exec S Obj
  pub delete : Obj → Exec S (Unit {0})
