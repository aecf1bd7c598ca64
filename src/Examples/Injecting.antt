-- ===== src/Examples/Injecting.antt =====
-- The injection of secrets and the building of jobs, at concrete pods and consoles.
use theatre.Prelude.{
  ◌+◌, ◌≤◌, ◌≡◌, ◌≢◌, refl, ◌⊎◌, String, ◌==◌, true, false, none, some, List, [], ◌∷◌, ◌++◌, map,
  ok, lookup, if◌then◌else◌,
}
use Prim.Native.String.{count}
use theatre.Kubernetes.Workload.{Container, Pod, PodPhase, PodTemplate}
use theatre.Vault.{
  SecretsInjectorOptions, VaultConfig, Environment, Counters, inject, handle, patched, is_allowed,
  with_request,
}
use theatre.Vault.Annotation.{get_fqdn_config, parse_container_configs}
use theatre.Vault.Injection.{IsInjected, inject-IsInjected}
use theatre.Vault.Handling.{handle-counts, handle-patched, renamed}
use theatre.ConsoleController.Job.{
  JobOptions, add_session_recording_to_pod_template, build_sidecar_container,
}
use theatre.ConsoleController.Job.Recording.{
  recorded, command_line, add_session_recording-command_lines,
}
use theatre.ConsoleController.Names.{sanitise_label}
use theatre.ConsoleController.Names.Bounds.{IsLabelText, sanitise_label-IsLabelText}
use theatre.Examples.{meta, shell, pod_spec}

abbrev options : SecretsInjectorOptions
options = record {
  image = "theatre";
  install_path = "/opt";
  service_account_token_file = "/var/token";
  service_account_token_expiry = 900;
  service_account_token_audience = "vault";
  timeout = 10;
  debug = false;
  path_base = λ p. p;
  path_dir = λ p. p;
  path_join = λ ps. elim ps [ [] ↦ "" | p ∷ _ ↦ p ];
  print_duration = λ n. "10s";
}

abbrev vault : VaultConfig
vault = record {
  address = "vault";
  auth_mount_path = "kubernetes";
  auth_role = "default";
  secret_mount_path_prefix = "secret";
}

abbrev pod : Pod
pod = record {
  metadata = record (meta "web") {
    annotations = ("secrets-injector.vault.crd.gocardless.com/configs", "app:config.yaml") ∷ [];
  };
  spec = pod_spec;
  phase = PodPhase.pending;
  status_message = "";
  init_container_statuses = [];
  container_statuses = [];
  ephemeral_container_statuses = [];
}

inject-IsInjected_example :
    ((get_fqdn_config pod.metadata.annotations ≡ none) × (inject options vault pod ≡ none))
    ⊎ ((configs : List (String × String)) × (after : Pod) × (parse_container_configs
            pod.metadata.annotations
          ≡ some configs)
        × (inject options vault pod ≡ some after)
        × IsInjected options configs pod after)
inject-IsInjected_example = inject-IsInjected options vault pod

abbrev request : Environment
request = record {
  decode = some pod;
  vault_config = ok vault;
  marshal_fails = λ p. false;
  namespace = "staging";
  request_name = "web";
}

abbrev none_yet : Counters
none_yet = record { handled = 0; mutated = 0; skipped = 0; errors = 0 }

handle-counts_example :
    (((handle options request none_yet).1).handled ≡ 0 + 1)
    × (((handle options request none_yet).1).errors
        ≡ 0 + (if is_allowed (handle options request none_yet).0 then 0 else 1))
    × (((handle options request none_yet).1).skipped + ((handle options request none_yet).1).mutated
        ≡ 0 + 0 + 1)
handle-counts_example = handle-counts options request none_yet

-- The pod of the request, as it is injected.
abbrev injected : Pod
injected = elim (inject options vault (with_request request pod)) [
  | none ↦ pod
  | some after ↦ after
]

is_patched : (handle options request none_yet).0 ≡ patched injected
unfolding handle inject get_fqdn_config lookup parse_container_configs
is_patched = refl

handle-patched_example :
    (p : Pod) × (named : Pod) × (v : VaultConfig) × (request.decode ≡ some p)
    × (get_fqdn_config p.metadata.annotations ≢ none)
    × (request.vault_config ≡ ok v)
    × (named.metadata.namespace ≡ "staging")
    × (named.metadata.name ≡ (if "web" == "" then p.metadata.name else "web"))
    × (renamed named p.metadata.namespace p.metadata.name ≡ p)
    × (inject options v named ≡ some injected)
handle-patched_example = handle-patched options request none_yet injected is_patched

abbrev job_options : JobOptions
job_options = record {
  enable_session_recording = true;
  session_sidecar_image = "sidecar";
  session_pubsub_topic_id = "topic";
  session_pubsub_project_id = "project";
  build_id = λ c. c.metadata.name;
  print_number = λ n. "0";
}

abbrev pod_template : PodTemplate
pod_template = record { metadata = meta "pod"; spec = pod_spec }

add_session_recording-command_lines_example :
    (cs : List Container) × ((add_session_recording_to_pod_template job_options pod_template
        "id").spec.containers
      ≡ cs ++ build_sidecar_container job_options "id" ∷ [])
    × (recorded cs ≡ map (λ c. some (command_line c)) (shell ∷ []))
add_session_recording-command_lines_example =
    add_session_recording-command_lines job_options pod_template "id"

sanitise_label-IsLabelText_example :
    (count (sanitise_label "system:unsecured") ≤ 63)
    × IsLabelText (sanitise_label "system:unsecured")
sanitise_label-IsLabelText_example = sanitise_label-IsLabelText "system:unsecured"
