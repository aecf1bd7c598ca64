-- ===== src/Examples/Running.antt =====
-- The runner, over a cluster that changes with its clock.
use theatre.Prelude.{
  ℕ, suc, ltb, ◌≡◌, ◌≢◌, refl, ◌↔◌, ◌⊎◌, String, true, false, ◌==◌, ◌&&◌, if◌then◌else◌, Option,
  none, some, List, [], ◌∷◌, ok, err, Failure,
}
use theatre.Prelude.Results.{message}
use theatre.Kubernetes.{RoleBinding}
use theatre.Kubernetes.Workload.{Pod, PodPhase}
use theatre.Rbac.{includes_subject}
use theatre.Console.{
  Console, running, pending_authorisation, is_running, is_stopped, is_pending_authorisation,
  phase_is,
}
use theatre.Console.Template.{
  ConsoleTemplate, get_authorisation_rule_for_command, validate as validate_template, match_rule,
}
use theatre.ConsoleAuthorisation.{ConsoleAuthorisation, validate}
use theatre.ConsoleController.Job.{JobOptions, build_job}
use theatre.Runner.{
  Operation, Api, Until, Delivered, object, check_console_state, rb_has_subject, hook_or_default,
  is_pending_authorisation_error,
}
use theatre.Runner.Attaching.{get_attachable_pod, wait_for_success, is_not_found}
use theatre.Runner.Attaching.Pods.{get_attachable_pod-build_job}
use theatre.Runner.Attaching.Success.{wait_for_success-IsOver, IsOver}
use theatre.Runner.Creating.{CreateOptions, create, request, authorise_patch}
use theatre.Runner.Creating.Composing.{
  authorise_patch-validate_iff, IsJsonPatch, extended, asked, authoriser,
}
use theatre.Runner.Creating.Following.{create-IsReady, before_second_wait}
use theatre.Runner.Finding.{find_console_by_name, find_template_by_selector}
use theatre.Runner.Finding.Exactly.{find_console_by_name_iff, IsOnly}
use theatre.Runner.Waiting.{wait_for_console, wait_until_ready, key_of}
use theatre.Runner.Waiting.First.{wait_for_console-FirstWith, here, there, nothing, read}
use theatre.Runner.Waiting.Ready.{IsSeen, HasBinding}
use theatre.Runner.Waiting.Watching.{IsWatch, synced}
use theatre.Examples.{console_in, template, meta, pod_spec, shell, user, authorised_by}

-- The clock of the cluster, which every wait advances.
abbrev World : Type 0
World = ℕ

-- A wait that sees what it is given.
abbrev watching :
    {Obj R : Type 0} → (World → List Obj) → (World → List (Delivered Obj)) → Until World Obj R
watching items events n precondition condition (r, s) =
    let (answer, r') = synced (message "timed out") condition precondition (items s) (events s) r in
    (answer, (r', suc s))

watching-IsWatch :
    {Obj R : Type 0} (items : World → List Obj) (events : World → List (Delivered Obj))
    → IsWatch (watching {R = R} items events)
watching-IsWatch items events = record {
  items = λ n s. items s;
  events = λ n s. events s;
  timeout = message "timed out";
  runs = λ n s precondition condition r. (refl, refl);
}

abbrev binding : RoleBinding
binding = record {
  metadata = meta "console";
  role_ref = record { api_group = "rbac.authorization.k8s.io"; kind = "Role"; name = "console" };
  subjects = user "alice@example.com" ∷ [];
}

abbrev done_pod : Pod
done_pod = record {
  metadata = meta "pod";
  spec = record pod_spec { containers = record shell { tty = true } ∷ [] };
  phase = PodPhase.succeeded;
  status_message = "";
  init_container_statuses = [];
  container_statuses = [];
  ephemeral_container_statuses = [];
}

abbrev waiting_console : Console
waiting_console = console_in pending_authorisation

abbrev live : Console
live = console_in running

-- At the clocks 0 and 1 the console awaits its authorisation, and a watch that begins then sees it
-- start to run; its role binding is there from 2 on.
abbrev consoles_at : World → List Console
consoles_at s = (if ltb s 2 then waiting_console else live) ∷ []

abbrev console_events_at : World → List (Delivered Console)
console_events_at s = if ltb s 2 then object live ∷ [] else []

abbrev bindings_at : World → List RoleBinding
bindings_at s = if ltb s 2 then [] else binding ∷ []

abbrev api_with : Pod → Api World Console
api_with pod = record {
  list_templates = λ namespace labels s. (template ∷ [], none);
  list_consoles = λ namespace labels s. (live ∷ [], none);
  create_console = λ name csl s. (ok live, s);
  get_console = λ n s. ok live;
  get_pod = λ n s. ok pod;
  get_authorisation = λ n s. ok (authorised_by []);
  patch_authorisation = λ authz patch s. (ok authz, s);
  until_consoles = watching consoles_at console_events_at;
  until_pods = watching (λ s. []) (λ s. object done_pod ∷ []);
  until_role_bindings = watching bindings_at (λ s. []);
  new_spdy_executor = λ n options s. ok tt;
  stream = λ n options streams s. (ok tt, s);
  open_logs = λ n container s. (ok tt, s);
  copy_logs = λ n container s. (ok tt, s);
  selector_labels = λ selector. ok [];
  validate_labels = λ labels. ok tt;
  from_unstructured = λ csl. ok csl;
  api_error_text = λ e. "refused";
}

abbrev api : Api World Console
api = api_with done_pod

consoles : IsWatch api.until_consoles
consoles = watching-IsWatch consoles_at console_events_at

bindings : IsWatch api.until_role_bindings
bindings = watching-IsWatch bindings_at (λ s. [])

pods : IsWatch api.until_pods
pods = watching-IsWatch (λ s. []) (λ s. object done_pod ∷ [])

wait_for_console-FirstWith_example : (wait_for_console api live true 1).0 ≡ ok (some live)
unfolding consoles watching-IsWatch is_pending_authorisation
wait_for_console-FirstWith_example =
    wait_for_console-FirstWith api consoles live true 1 (live ∷ []) (waiting_console ∷ live ∷ [])
      live refl (read waiting_console waiting_console refl (read live live refl nothing))
      (there waiting_console
        (unfold is_running is_stopped is_pending_authorisation phase_is in refl)
        (here [] (unfold is_running is_stopped is_pending_authorisation phase_is in refl)))

abbrev options : CreateOptions World
options = record {
  namespace = "staging";
  selector = "team=infra";
  timeout = 60000000000;
  reason = "debugging";
  command = "rails" ∷ "c" ∷ [];
  attach = false;
  noninteractive = false;
  labels = [];
  hook = none;
}

created : create api options 0 ≡ (ok live, 3)
unfolding create find_template_by_selector hook_or_default wait_until_ready synced
    check_console_state is_pending_authorisation_error get_authorisation_rule_for_command
    validate_template match_rule is_stopped rb_has_subject
created = refl

create-IsReady_example :
    (tpl : ConsoleTemplate) × (made : Console) × ((request api options 0).0 ≡ ok (tpl, made))
    × IsSeen api consoles bindings made (before_second_wait api options tpl made 0) live
    × ((is_running live ≡ true) ⊎ (is_stopped live ≡ true))
    × ((is_stopped live ≡ true)
        ⊎ HasBinding api consoles bindings live
            (wait_for_console api made true (before_second_wait api options tpl made 0)).1)
create-IsReady_example = create-IsReady api consoles bindings options live 0 3 created

find_console_by_name_iff_example :
    (find_console_by_name api "staging" "console" 0 ≡ ok live) ↔ IsOnly "console" (live ∷ []) live
find_console_by_name_iff_example =
    find_console_by_name_iff api "staging" "console" 0 (live ∷ []) live refl

abbrev recording : JobOptions
recording = record {
  enable_session_recording = true;
  session_sidecar_image = "sidecar";
  session_pubsub_topic_id = "topic";
  session_pubsub_project_id = "project";
  build_id = λ csl. csl.metadata.name;
  print_number = λ n. "0";
}

-- The pod of the console's job, recorded.
recorded_pod : Pod
recorded_pod = record done_pod {
  spec = (build_job recording (key_of live) live template).spec.template.spec;
}

get_attachable_pod-build_job_example :
    get_attachable_pod (api_with recorded_pod) live 0 ≡ ok (recorded_pod, "app")
unfolding recorded_pod
get_attachable_pod-build_job_example =
    get_attachable_pod-build_job (api_with recorded_pod) recording (key_of live) live live template
      0 recorded_pod shell [] refl refl refl refl

followed : wait_for_success api live 0 ≡ (ok tt, 1)
unfolding wait_for_success synced
followed = refl

wait_for_success-IsOver_example :
    ((e : Failure) × (get_attachable_pod api live 0 ≡ err e) × (is_not_found e ≡ true))
    ⊎ ((pod : Pod) × (name : String) × (get_attachable_pod api live 0 ≡ ok (pod, name))
        × IsOver api pods pod 0)
wait_for_success-IsOver_example = wait_for_success-IsOver api pods live 0 1 followed

-- Patches that only append to the authorisations.
abbrev apply_appends : List Operation → ConsoleAuthorisation → Option ConsoleAuthorisation
apply_appends [] authz = some authz
apply_appends (operation ∷ operations) authz =
    if (operation.op == "add") && (operation.path == "/spec/authorisations/-")
    then apply_appends operations (extended authz operation.value)
    else none

apply_appends-IsJsonPatch : IsJsonPatch apply_appends
apply_appends-IsJsonPatch = record { nothing = λ authz. refl; add = λ authz value operations. refl }

authorise_patch-validate_iff_example :
    (updated : ConsoleAuthorisation) × (apply_appends
        (authorise_patch "staging" "bob")
        (authorised_by [])
      ≡ some updated)
    × ((validate (asked (authorised_by []) updated "bob" "alice") ≡ []) ↔ (
        (includes_subject [] (authoriser "staging" "bob") ≡ true)
        ⊎ (◌≢◌ {A = String} "bob" "alice")))
authorise_patch-validate_iff_example =
    authorise_patch-validate_iff apply_appends apply_appends-IsJsonPatch (authorised_by [])
      "staging" "bob" "alice"
