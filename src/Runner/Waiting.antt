-- ===== src/Runner/Waiting.antt =====
-- runner.go: waiting for a console to be ready and for the role binding of its user.
pub mod Watching
pub mod Ready
pub mod First
use theatre.Prelude.{
  String, ◌<>◌, Bool, true, false, Option, none, some, List, [], ◌∷◌, Result, ok, err, Failure,
  if◌then◌else◌,
}
use theatre.Prelude.Results.{message}
use theatre.Prelude.Exec.{Exec, pure, lift, ◌>>=◌}
use theatre.Kubernetes.{NamespacedName, RoleBinding}
use theatre.Console.{Console, is_stopped, dereference}
use theatre.Runner.{Api, Check, Delivered, object, unexpected, check_console_state, rb_has_subject}

-- `fmt.Errorf("unexpected event object: %v", …)`
abbrev pub unexpected_object : String → Failure
unexpected_object type_name = message ("unexpected event object: " <> type_name)

-- The key that a watch of one object is restricted to.
abbrev pub key_of : Console → NamespacedName
key_of csl = record { namespace = csl.metadata.namespace; name = csl.metadata.name }

-- What a closure leaves in `resultCsl`: the console when the test is done.
keep_result : Console → Check → Option Console → Check × Option Console
keep_result csl (done, e) result = ((done, e), if done then some csl else result)

-- The end of both closures, after the conversion of the object.
unfoldable pub check_converted : Bool → Result Console → Option Console → Check × Option Console
unfolding keep_result
check_converted wait (err e) result = ((false, some e), result)
check_converted wait (ok csl) result = keep_result csl (check_console_state csl wait) result

module _ {S Raw : Type 0} (k : Api S Raw) where
  unfoldable pub console_precondition : Bool → List Raw → Option Console → Check × Option Console
  unfolding check_converted
  console_precondition wait [] result = ((false, none), result)
  console_precondition wait (obj ∷ _) result = check_converted wait (k.from_unstructured obj) result

  unfoldable pub console_condition : Bool → Delivered Raw → Option Console → Check × Option Console
  unfolding check_converted
  console_condition wait (unexpected t) result = ((false, some (unexpected_object t)), result)
  console_condition wait (object obj) result = check_converted wait (k.from_unstructured obj) result

  -- The console that was found is handed back with the error too; the caller drops it then.
  unfoldable pub taken : Result (Unit {0}) × (Option Console × S) → Result (Option Console) × S
  taken (ok _, (result, s)) = (ok result, s)
  taken (err e, (result, s)) = (err e, s)

  -- `waitForConsole`
  unfoldable pub wait_for_console : Console → Bool → Exec S (Option Console)
  unfolding taken console_precondition console_condition
  wait_for_console created wait s = taken (
      k.until_consoles (key_of created) (console_precondition wait) (console_condition wait)
        (none, s))

  unfoldable pub binding_precondition : String → List RoleBinding → Unit {0} → Check × Unit {0}
  binding_precondition user [] u = ((false, none), u)
  binding_precondition user (rb ∷ _) u = ((rb_has_subject rb user, none), u)

  unfoldable pub binding_condition : String → Delivered RoleBinding → Unit {0} → Check × Unit {0}
  binding_condition user (unexpected t) u = ((false, some (unexpected_object t)), u)
  binding_condition user (object rb) u = ((rb_has_subject rb user, none), u)

  unfoldable pub without_result : Result (Unit {0}) × (Unit {0} × S) → Result (Unit {0}) × S
  without_result (answer, (_, s)) = (answer, s)

  -- `waitForRoleBinding`
  unfoldable pub wait_for_role_binding : Console → Exec S (Unit {0})
  unfolding without_result binding_precondition binding_condition
  wait_for_role_binding csl s =
      if is_stopped csl
      then (ok tt, s)
      else without_result (
          k.until_role_bindings (key_of csl) (binding_precondition csl.spec.user)
            (binding_condition csl.spec.user) (tt, s))

  -- `WaitUntilReady`; a nil console after a wait without error would make the source panic.
  unfoldable pub wait_until_ready : Console → Bool → Exec S Console
  unfolding wait_for_console wait_for_role_binding
  wait_until_ready created wait = do
    found ← wait_for_console created wait
    csl ← lift (dereference found)
    _ ← wait_for_role_binding csl
    pure csl
