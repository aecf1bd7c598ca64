-- ===== src/Runner/Attaching.antt =====
-- runner.go: attaching to the pod of a console, and following it to its end.
pub mod Pods
pub mod Success
use theatre.Prelude.{
  String, ◌<>◌, Bool, true, false, not, Option, none, some, List, [], ◌∷◌, Result, ok, err, Failure,
  if◌then◌else◌,
}
use theatre.Prelude.Results.{ApiError, api, not_found, message, wrap, panic, sentinel, cause}
use theatre.Prelude.Exec.{Exec, pure, raise, lift, wrapping, attempt, ◌>>=◌}
use theatre.Prelude.Texts.{contains}
use theatre.Kubernetes.{NamespacedName}
use theatre.Kubernetes.Workload.{Container, Pod}
use theatre.Console.{Console}
use theatre.Runner.{
  Api, Check, Delivered, object, unexpected, check_pod_state, LifecycleHook, hook_or_default,
  PodAttachOptions, StreamOptions,
}
use theatre.Runner.Finding.{find_console_by_name}
use theatre.Runner.Waiting.{unexpected_object, without_result}

-- `AttachOptions`; the configuration and the streams belong to the API.
pub record AttachOptions (S : Type 0) : Type 0 where
  pub namespace : String
  pub name : String
  pub hook : Option (LifecycleHook S)

abbrev pub no_attachable_pod : Failure
no_attachable_pod = message "no attachable pod found"

-- The loop that looks for a container with a terminal.
unfoldable pub terminal_of : List Container → Result String
terminal_of [] = err no_attachable_pod
terminal_of (c ∷ containers) =
    let rest = terminal_of containers in if c.tty then ok c.name else rest

unfoldable pub container_of : Bool → List Container → Result String
unfolding terminal_of
container_of noninteractive [] = err no_attachable_pod
container_of true (c ∷ containers) = ok c.name
container_of false (c ∷ containers) = terminal_of (c ∷ containers)

-- `apierrors.IsNotFound`
unfoldable pub is_not_found : Failure → Bool
unfolding cause
is_not_found e = elim (cause e) [ api a ↦ elim a [ not_found ↦ true | _ ↦ false ] | _ ↦ false ]

-- `err.Error()`, with the texts of the API's errors.
unfoldable pub error_text : (ApiError → String) → Failure → String
error_text text (api e) = text e
error_text text (message m) = m
error_text text (wrap m e) = m <> (": " <> error_text text e)
error_text text (panic m) = m
error_text text (sentinel m) = m

abbrev key_of_pod : Pod → NamespacedName
key_of_pod pod = record { namespace = pod.metadata.namespace; name = pod.metadata.name }

-- The options of `interactiveAttacher` and of `noninteractiveAttacher`.
unfoldable pub interactive_options : String → PodAttachOptions
interactive_options container_name = record {
  stdin = true;
  stdout = true;
  stderr = true;
  tty = true;
  container = container_name;
}

unfoldable pub noninteractive_options : String → PodAttachOptions
noninteractive_options container_name = record {
  stdin = false;
  stdout = true;
  stderr = true;
  tty = false;
  container = container_name;
}

-- `CreateInteractiveStreamOptions`, but for the terminal it reads the sizes from.
abbrev interactive_streams : StreamOptions
interactive_streams = record { stdin = true; tty = true; terminal_sizes = true }

abbrev noninteractive_streams : StreamOptions
noninteractive_streams = record { stdin = false; tty = false; terminal_sizes = false }

-- `GetAttachablePod` after the pod was asked for.
unfoldable pub with_name : Pod → Result String → Result (Pod × String)
with_name pod (err e) = err e
with_name pod (ok name) = ok (pod, name)

unfoldable pub with_containers : Console → Result Pod → Result (Pod × String)
unfolding container_of with_name
with_containers csl (err e) = err e
with_containers csl (ok pod) =
    with_name pod (container_of csl.spec.noninteractive pod.spec.containers)

module _ {S Raw : Type 0} (k : Api S Raw) where
  -- `GetAttachablePod`
  unfoldable pub get_attachable_pod : Console → S → Result (Pod × String)
  unfolding with_containers
  get_attachable_pod csl s =
      with_containers csl
        (k.get_pod (record { namespace = csl.metadata.namespace; name = csl.status.pod_name }) s)

  -- The end of both attachers: an executor for the request, and its stream.
  unfoldable pub attach_with : PodAttachOptions → StreamOptions → Pod → Exec S (Unit {0})
  attach_with options streams pod = do
    _ ←
        wrapping "failed to create SPDY executor"
          (λ s. (k.new_spdy_executor (key_of_pod pod) options s, s))
    k.stream (key_of_pod pod) options streams

  unfoldable pub interactive_attach : Pod → String → Exec S (Unit {0})
  unfolding attach_with interactive_options
  interactive_attach pod container_name =
      attach_with (interactive_options container_name) interactive_streams pod

  unfoldable pub noninteractive_attach : Pod → String → Exec S (Unit {0})
  unfolding attach_with noninteractive_options
  noninteractive_attach pod container_name =
      attach_with (noninteractive_options container_name) noninteractive_streams pod

  -- A pod that is gone is taken for a success.
  unfoldable pub pod_precondition : List Pod → Unit {0} → Check × Unit {0}
  pod_precondition [] u = ((true, none), u)
  pod_precondition (pod ∷ _) u = (check_pod_state pod, u)

  unfoldable pub pod_condition : Delivered Pod → Unit {0} → Check × Unit {0}
  pod_condition (unexpected t) u = ((false, some (unexpected_object t)), u)
  pod_condition (object pod) u = (check_pod_state pod, u)

  unfoldable pub follow_pod : Result (Pod × String) → Exec S (Unit {0})
  unfolding without_result pod_precondition pod_condition
  follow_pod (err e) s = if is_not_found e then (ok tt, s) else (err (wrap "retrieving pod" e), s)
  follow_pod (ok (pod, _)) s =
      without_result k (k.until_pods (key_of_pod pod) pod_precondition pod_condition (tt, s))

  -- `waitForSuccess`
  unfoldable pub wait_for_success : Console → Exec S (Unit {0})
  unfolding get_attachable_pod follow_pod
  wait_for_success csl s = follow_pod (get_attachable_pod csl s) s

  -- `extractLogs`
  unfoldable pub extract_logs : Console → Pod → String → Exec S (Unit {0})
  unfolding wait_for_success
  extract_logs csl pod container_name = do
    _ ← k.open_logs (key_of_pod pod) container_name
    _ ← k.copy_logs (key_of_pod pod) container_name
    wait_for_success csl

  -- What `Attach` makes of the attacher's answer.
  unfoldable pub attached : Console → Pod → String → Result (Unit {0}) → Exec S (Unit {0})
  unfolding extract_logs wait_for_success error_text
  attached csl pod container_name (err e) =
      if contains (error_text k.api_error_text e)
        ("container " <> (container_name <> (" not found in pod " <> pod.metadata.name)))
      then extract_logs csl pod container_name
      else (do
        _ ← attempt (extract_logs csl pod container_name)
        raise (wrap "failed to attach to console" e))
  attached csl pod container_name (ok _) =
      if not csl.spec.noninteractive then pure tt else wait_for_success csl

  -- `Attach`
  unfoldable pub attach : AttachOptions S → Exec S (Unit {0})
  unfolding attached interactive_attach noninteractive_attach
  attach opts = do
    csl ← (λ s. (find_console_by_name k opts.namespace opts.name s, s))
    (pod, container_name) ←
        wrapping "could not find pod to attach to" (λ s. (get_attachable_pod csl s, s))
    _ ← (hook_or_default opts.hook).attaching_to_console csl
    answer ← attempt (
        if not csl.spec.noninteractive
        then interactive_attach pod container_name
        else noninteractive_attach pod container_name)
    attached csl pod container_name answer
