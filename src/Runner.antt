-- ===== src/Runner.antt =====
-- pkg/workloads/console/runner/runner.go: what the command line does with consoles. This file has
-- the options, the lifecycle hooks, the tests on watched objects and the API that the runner uses;
-- the children have its operations.
pub mod Finding
pub mod Waiting
pub mod Attaching
pub mod Creating
use theatre.Prelude.{
  ℕ, String, ◌==◌, ◌<>◌, Bool, true, false, not, Option, none, some, List, [], ◌∷◌, Result, any,
  if◌then◌else◌, Failure,
}
use theatre.Prelude.Results.{ApiError, message, sentinel}
use theatre.Prelude.Exec.{Exec, pure}
use theatre.Kubernetes.{NamespacedName, Subject, RoleBinding}
use theatre.Kubernetes.Workload.{Pod, PodPhase}
use theatre.Console.{Console, Phase, creating, pending_authorisation, running, stopped, destroyed}
use theatre.Console.Template.{ConsoleTemplate, ConsoleAuthorisationRule}
use theatre.ConsoleAuthorisation.{ConsoleAuthorisation}

-- What a test on a watched object answers: whether it is done, and its error.
abbrev pub Check : Type 0
Check = Bool × Option Failure

abbrev pub Labels : Type 0
Labels = List (String × String)

-- The object of a watch event, or the type of one that is not of the kind that is watched.
pub data Delivered (Obj : Type 0) : Type 0 where
  object : Obj → Delivered Obj
  unexpected : String → Delivered Obj

-- `watchtools.UntilWithSync` on the objects of one name, from its precondition on what the store
-- lists and its condition on an event; `R` holds what these closures write.
abbrev pub Until : Type 0 → Type 0 → Type 0 → Type 0
Until S Obj R =
    NamespacedName
    → (List Obj → R → Check × R)
    → (Delivered Obj → R → Check × R)
    → Exec (R × S) (Unit {0})

-- `PodAttachOptions`, and what of `StreamOptions` depends on the attacher.
pub record PodAttachOptions : Type 0 where
  pub stdin : Bool
  pub stdout : Bool
  pub stderr : Bool
  pub tty : Bool
  pub container : String

pub record StreamOptions : Type 0 where
  pub stdin : Bool
  pub tty : Bool
  pub terminal_sizes : Bool

-- The operation of a JSON patch.
pub record Operation : Type 0 where
  pub op : String
  pub path : String
  pub value : Subject

-- The Kubernetes API over the state `S` of the cluster, as the runner uses it. `Raw` is the type
-- of unstructured objects. A list that fails may still have items.
pub record Api (S Raw : Type 0) : Type 0 where
  pub list_templates : String → Labels → S → List ConsoleTemplate × Option Failure
  pub list_consoles : String → Labels → S → List Console × Option Failure
  -- From the `GenerateName` and the rest of the console.
  pub create_console : String → Console → Exec S Console
  pub get_console : NamespacedName → S → Result Console
  pub get_pod : NamespacedName → S → Result Pod
  pub get_authorisation : NamespacedName → S → Result ConsoleAuthorisation
  pub patch_authorisation : ConsoleAuthorisation → List Operation → Exec S ConsoleAuthorisation
  pub until_consoles : Until S Raw (Option Console)
  pub until_pods : Until S Pod (Unit {0})
  pub until_role_bindings : Until S RoleBinding (Unit {0})
  -- The executor for a request to attach to a pod, which may be refused, and its stream.
  pub new_spdy_executor : NamespacedName → PodAttachOptions → S → Result (Unit {0})
  pub stream : NamespacedName → PodAttachOptions → StreamOptions → Exec S (Unit {0})
  -- `GetLogs(…).Stream` and `io.Copy` to the output.
  pub open_logs : NamespacedName → String → Exec S (Unit {0})
  pub copy_logs : NamespacedName → String → Exec S (Unit {0})
  -- `labels.ConvertSelectorToLabelsMap`, `AsValidatedSelector`, `FromUnstructured`, and `Error()` of
  -- the API's errors
  pub selector_labels : String → Result Labels
  pub validate_labels : Labels → Result (Unit {0})
  pub from_unstructured : Raw → Result Console
  pub api_error_text : ApiError → String

-- `Options`
pub record Options : Type 0 where
  pub cmd : List String
  pub timeout : ℕ
  pub reason : String
  pub labels : Labels
  pub noninteractive : Bool

-- `LifecycleHook`
pub record LifecycleHook (S : Type 0) : Type 0 where
  pub attaching_to_console : Console → Exec S (Unit {0})
  pub console_created : Console → Exec S (Unit {0})
  pub console_requires_authorisation : Console → ConsoleAuthorisationRule → Exec S (Unit {0})
  pub console_ready : Console → Exec S (Unit {0})
  pub template_found : ConsoleTemplate → Exec S (Unit {0})

-- `DefaultLifecycleHook`, whose functions may be nil.
pub record DefaultLifecycleHook (S : Type 0) : Type 0 where
  pub attaching_to_pod_func : Option (Console → Exec S (Unit {0}))
  pub console_created_func : Option (Console → Exec S (Unit {0}))
  pub console_requires_authorisation_func :
      Option (Console → ConsoleAuthorisationRule → Exec S (Unit {0}))
  pub console_ready_func : Option (Console → Exec S (Unit {0}))
  pub template_found_func : Option (ConsoleTemplate → Exec S (Unit {0}))

module _ {S : Type 0} where
  -- `if f != nil { return f(a) }; return nil`
  unfoldable pub call : {A : Type 0} → Option (A → Exec S (Unit {0})) → A → Exec S (Unit {0})
  call none a = pure tt
  call (some f) a = f a

  call_with_rule :
      Option (Console → ConsoleAuthorisationRule → Exec S (Unit {0}))
      → Console
      → ConsoleAuthorisationRule
      → Exec S (Unit {0})
  call_with_rule none csl rule = pure tt
  call_with_rule (some f) csl rule = f csl rule

  -- The methods of `DefaultLifecycleHook`.
  unfoldable pub default_hook : DefaultLifecycleHook S → LifecycleHook S
  unfolding call call_with_rule
  default_hook d = record {
    attaching_to_console = call d.attaching_to_pod_func;
    console_created = call d.console_created_func;
    console_requires_authorisation = call_with_rule d.console_requires_authorisation_func;
    console_ready = call d.console_ready_func;
    template_found = call d.template_found_func;
  }

  -- The hook of the options, by `WithDefaults`.
  unfoldable pub hook_or_default : Option (LifecycleHook S) → LifecycleHook S
  unfolding default_hook
  hook_or_default (some hook) = hook
  hook_or_default none = default_hook (record {
    attaching_to_pod_func = none;
    console_created_func = none;
    console_requires_authorisation_func = none;
    console_ready_func = none;
    template_found_func = none;
  })

-- The text of a phase of a pod.
pod_phase_text : PodPhase → String
pod_phase_text PodPhase.pending = "Pending"
pod_phase_text PodPhase.running = "Running"
pod_phase_text PodPhase.succeeded = "Succeeded"
pod_phase_text PodPhase.failed = "Failed"
pod_phase_text PodPhase.unknown = "Unknown"

unexpected_state : Pod → Failure
unfolding pod_phase_text
unexpected_state pod =
    message
      ("pod in unexpected state " <> (pod_phase_text pod.phase <> (": " <> pod.status_message)))

-- `checkPodState`
unfoldable pub check_pod_state : Pod → Check
unfolding unexpected_state
check_pod_state pod = elim pod.phase [
  | PodPhase.running ↦ (false, none)
  | PodPhase.succeeded ↦ (true, none)
  | _ ↦ (true, some (unexpected_state pod))
]

abbrev pub err_console_pending_authorisation : Failure
err_console_pending_authorisation = sentinel "console pending authorisation"

-- `err == errConsolePendingAuthorisation`: it is the only error variable of this kind.
unfoldable pub is_pending_authorisation_error : Failure → Bool
is_pending_authorisation_error (sentinel m) = m == "console pending authorisation"
is_pending_authorisation_error _ = false

-- `checkConsoleState`
unfoldable pub check_console_state : Console → Bool → Check
check_console_state csl wait_for_authorisation = elim csl.status.phase [
  | running ↦ (true, none)
  | pending_authorisation ↦
      if not wait_for_authorisation
      then (true, some err_console_pending_authorisation)
      else (false, none)
  | stopped ↦ (true, none)
  | _ ↦ (false, none)
]

-- `rbHasSubject`
unfoldable pub rb_has_subject : RoleBinding → String → Bool
rb_has_subject rb subject_name = any (λ s. s.name == subject_name) rb.subjects
