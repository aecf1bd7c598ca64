-- ===== src/Recutil/Keeping.antt =====
-- pkg/recutil/reconcile.go: CreateOrUpdate touches only what its client touches.
use theatre.Prelude.{Result, ok, err}
use theatre.Prelude.Results.{api, not_found, conflict, api_failure, message, wrap, panic, sentinel}
use theatre.Prelude.Exec.{pure}
use theatre.Prelude.Exec.Keeps.{Keeps, Keeps-pure, Keeps-raise, Keeps-bind}
use theatre.Kubernetes.{NamespacedName, Client}
use theatre.Recutil.{
  Outcome, create, update, unchanged, error, DiffFunc, submit, after_get, create_or_update,
}

-- The calls of a client keep what `view` sees.
pub record ClientKeeps {S V Obj : Type 0} (view : S → V) (c : Client S Obj) : Type 0 where
  pub creates : (o : Obj) → Keeps view (c.create o)
  pub updates : (o : Obj) → Keeps view (c.update o)
  pub deletes : (o : Obj) → Keeps view (c.delete o)

module _ {S V Obj : Type 0} (view : S → V) (c : Client S Obj) (keeps : ClientKeeps view c) where
  submit-Keeps : (existing : Obj) (o : Outcome) → Keeps view (submit c (existing, o))
  unfolding submit
  submit-Keeps existing update =
      Keeps-bind view (c.update existing) (λ stored. pure (update, stored)) (keeps.updates existing)
        (λ stored. Keeps-pure view (update, stored))
  submit-Keeps existing unchanged = Keeps-pure view (unchanged, existing)
  submit-Keeps existing create = Keeps-raise view (message "unrecognised operation")
  submit-Keeps existing error = Keeps-raise view (message "unrecognised operation")

  after_get-Keeps :
      (diff_func : DiffFunc Obj) (expected : Obj) (found : Result Obj)
      → Keeps view (after_get c diff_func expected found)
  unfolding after_get
  after_get-Keeps diff_func expected (ok existing) =
      submit-Keeps (diff_func expected existing).0 (diff_func expected existing).1
  after_get-Keeps diff_func expected (err (api not_found)) =
      Keeps-bind view (c.create expected) (λ stored. pure (create, stored)) (keeps.creates expected)
        (λ stored. Keeps-pure view (create, stored))
  after_get-Keeps diff_func expected (err (api conflict)) = Keeps-raise view (api conflict)
  after_get-Keeps diff_func expected (err (api (api_failure m))) =
      Keeps-raise view (api (api_failure m))
  after_get-Keeps diff_func expected (err (message m)) = Keeps-raise view (message m)
  after_get-Keeps diff_func expected (err (wrap m e)) = Keeps-raise view (wrap m e)
  after_get-Keeps diff_func expected (err (panic m)) = Keeps-raise view (panic m)
  after_get-Keeps diff_func expected (err (sentinel m)) = Keeps-raise view (sentinel m)

  pub create_or_update-Keeps :
      (name_of : Obj → NamespacedName) (diff_func : DiffFunc Obj) (expected : Obj)
      → Keeps view (create_or_update c name_of diff_func expected)
  unfolding create_or_update
  create_or_update-Keeps name_of diff_func expected = record {
    at = λ s. (after_get-Keeps diff_func expected (c.get (name_of expected) s)).at s;
  }
