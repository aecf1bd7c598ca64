-- ===== src/Recutil.antt =====
-- pkg/recutil/reconcile.go: bringing one object of the cluster to its expected state, and the
-- frame that every reconciler runs in.
pub mod Converge
pub mod Diffs
pub mod Resolving
pub mod Keeping
use theatre.Prelude.{
  ℕ, suc, String, List, [], ◌∷◌, ◌++◌, Option, none, some, Result, ok, err, Failure, Bool, true,
  false, deep_equal, if◌then◌else◌,
}
use theatre.Prelude.Results.{not_found, api, message, cause, is_conflict}
use theatre.Prelude.Exec.{Exec, pure, raise, ◌>>=◌}
use theatre.Kubernetes.{
  NamespacedName, ObjectMeta, Subject, RoleRef, Role, PolicyRule, Client, Rules-discrete,
  Subjects-discrete, RoleRef-discrete,
}

-- `Outcome`; `unchanged` is the source's `None`.
pub data Outcome : Type 0 where
  create update unchanged error : Outcome

-- `DiffFunc`: the expected and the existing object, to the existing object as the function leaves
-- it and the operation it asks for.
abbrev pub DiffFunc : Type 0 → Type 0
DiffFunc Obj = Obj → Obj → Obj × Outcome

module _ {S Obj : Type 0} (c : Client S Obj) where
  -- The switch on the operation.
  submit : Obj × Outcome → Exec S (Outcome × Obj)
  submit (existing, update) = do stored ← c.update existing; pure (update, stored)
  submit (existing, unchanged) = pure (unchanged, existing)
  submit (existing, _) = raise (message "unrecognised operation")

  after_get : DiffFunc Obj → Obj → Result Obj → Exec S (Outcome × Obj)
  unfolding submit
  after_get diff_func expected (ok existing) = submit (diff_func expected existing)
  after_get diff_func expected (err (api not_found)) = do
    stored ← c.create expected
    pure (create, stored)
  after_get diff_func expected (err e) = raise e

  -- `CreateOrUpdate`. The second result is what the argument points at afterwards.
  unfoldable pub create_or_update :
      (Obj → NamespacedName) → DiffFunc Obj → Obj → Exec S (Outcome × Obj)
  unfolding after_get
  create_or_update name_of diff_func expected s =
      after_get diff_func expected (c.get (name_of expected) s) s

-- `RoleDiff`
unfoldable pub role_diff : DiffFunc Role
role_diff expected existing =
    if deep_equal Rules-discrete expected.rules existing.rules
    then (existing, unchanged)
    else (record existing { rules = expected.rules }, update)

pub record DirectoryRoleBinding : Type 0 where
  pub metadata : ObjectMeta
  pub subjects : List Subject
  pub role_ref : RoleRef

-- One comparison of `DirectoryRoleBindingDiff` after the other, on the object and the operation.
set_subjects :
    DirectoryRoleBinding → DirectoryRoleBinding × Outcome → DirectoryRoleBinding × Outcome
set_subjects expected (existing, operation) =
    if deep_equal Subjects-discrete expected.subjects existing.subjects
    then (existing, operation)
    else (record existing { subjects = expected.subjects }, update)

set_role_ref :
    DirectoryRoleBinding → DirectoryRoleBinding × Outcome → DirectoryRoleBinding × Outcome
set_role_ref expected (existing, operation) =
    if deep_equal RoleRef-discrete expected.role_ref existing.role_ref
    then (existing, operation)
    else (record existing { role_ref = expected.role_ref }, update)

-- `DirectoryRoleBindingDiff`
unfoldable pub directory_role_binding_diff : DiffFunc DirectoryRoleBinding
unfolding set_subjects set_role_ref
directory_role_binding_diff expected existing =
    set_role_ref expected (set_subjects expected (existing, unchanged))

-- What `ResolveAndReconcile` logs; `EventRequeued`, which the console controller logs, is left out.
pub data ReconcileEvent : Type 0 where
  request_start not_found_event start skipped complete : ReconcileEvent
  failed : Failure → ReconcileEvent

-- The state that it runs on: that of the cluster, the log, the counter of errors, and whether the
-- variable `logger` holds a logger by `WithEventRecorder`, which records what it logs on the object
-- too. An entry of the log says whether it was so recorded.
pub record Frame (S : Type 0) : Type 0 where
  pub state : S
  pub events : List (ReconcileEvent × Bool)
  pub errors_total : ℕ
  pub records : Bool

module _ {S : Type 0} where
  log : ReconcileEvent → Frame S → Frame S
  log e f = record f { events = f.events ++ (e, f.records) ∷ [] }

  -- `logger.WithValues` of a new request, and the assignment of `WithEventRecorder`.
  abbrev request_logger : Frame S → Frame S
  request_logger f = record f { records = false }

  abbrev recording_logger : Frame S → Frame S
  recording_logger f = record f { records = true }

  -- The deferred function: a conflict is retried without a count. `WithNoRecord` changes no entry,
  -- since it only adds to the values of the logger, which `Info` does not read.
  deferred : {A : Type 0} → Result A × Frame S → Result A × Frame S
  unfolding log
  deferred (ok a, f) = (ok a, log complete f)
  deferred (err e, f) =
      if is_conflict (cause e)
      then (err e, log (failed e) f)
      else (err e, record (log (failed e) f) { errors_total = suc f.errors_total })

  within : {A : Type 0} → Frame S → Result A × S → Result A × Frame S
  within f (r, s) = (r, record f { state = s })

  module _ {Obj A : Type 0} (c : Client S Obj) (deletion_timestamp : Obj → Option ℕ) (nothing : A)
      (inner : NamespacedName → Obj → Exec S A) where
    skip_deleted : NamespacedName → Obj → Option ℕ → Exec (Frame S) A
    unfolding log within
    skip_deleted request obj none f = within f (inner request obj f.state)
    skip_deleted request obj (some _) f = (ok nothing, log skipped f)

    after_lookup : NamespacedName → Result Obj → Exec (Frame S) A
    unfolding skip_deleted log
    after_lookup request (ok obj) f =
        skip_deleted request obj (deletion_timestamp obj) (log start (recording_logger f))
    after_lookup request (err (api not_found)) f = (ok nothing, log not_found_event f)
    after_lookup request (err e) f = (err e, f)

    -- `ResolveAndReconcile`
    unfoldable pub resolve_and_reconcile : NamespacedName → Exec (Frame S) A
    unfolding after_lookup deferred log
    resolve_and_reconcile request f =
        deferred
          (after_lookup request (c.get request f.state) (log request_start (request_logger f)))
