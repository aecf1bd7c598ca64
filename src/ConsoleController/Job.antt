-- ===== src/ConsoleController/Job.antt =====
-- console_controller.go: the job that a console runs in, and the recording of its session.
pub mod Recording
pub mod Labels
pub mod Terminal
use Prim.Native.Char.{code}
use theatre.Prelude.{
  ℕ, ◌+◌, ◌<>◌, leb, ◌&&◌, String, Bool, true, false, not, Option, none, some, List, [], ◌∷◌, ◌++◌,
  if◌then◌else◌, insert, ltb,
}
use theatre.Kubernetes.{ObjectMeta, NamespacedName}
use theatre.Kubernetes.Workload.{
  EnvVar, VolumeMount, ContainerPort, Container, VolumeSource, empty_dir, Volume, PodSpec,
  PodTemplate, JobSpec, JobStatus, Job,
}
use theatre.Console.{Console}
use theatre.Console.Template.{ConsoleTemplate}
use theatre.ConsoleController.Names.{get_job_name, sanitise_label}

abbrev pub session_rec_vol_mount : String
session_rec_vol_mount = "/var/log/session"

abbrev pub session_rec_vol_name : String
session_rec_vol_name = "session-data"

-- `SidewrapShutdownDelay` and `SidewrapGracePeriod`, in seconds
abbrev pub sidewrap_shutdown_delay : ℕ
sidewrap_shutdown_delay = 60

abbrev pub sidewrap_grace_period : ℕ
sidewrap_grace_period = 30

-- The fields of the reconciler that the job depends on. `print_number` is `fmt`'s decimal form of a
-- number and `build_id` the identifier builder.
pub record JobOptions : Type 0 where
  pub enable_session_recording : Bool
  pub session_sidecar_image : String
  pub session_pubsub_topic_id : String
  pub session_pubsub_project_id : String
  pub build_id : Console → String
  pub print_number : ℕ → String

abbrev env_var : String → String → EnvVar
env_var name value = record { name = name; value = value; field_path = none }

-- `envVarSource`
abbrev env_var_source : String → String → EnvVar
env_var_source name path = record { name = name; value = ""; field_path = some path }

module _ (r : JobOptions) where
  -- `sessionRecordFileName`
  unfoldable pub session_record_file_name : ℕ → String
  session_record_file_name ix = session_rec_vol_mount <> ("/output" <> r.print_number ix)

  -- `buildSidecarContainer`
  unfoldable pub build_sidecar_container : String → Container
  build_sidecar_container console_id = record {
    name = "session-streamer";
    image = r.session_sidecar_image;
    image_pull_policy = "IfNotPresent";
    command = [];
    args = [];
    env =
        env_var_source "KUBERNETES_POD_NAME" "metadata.name"
        ∷ env_var_source "KUBERNETES_NAMESPACE" "metadata.namespace"
        ∷ env_var_source "LABEL_CONSOLE_NAME" "metadata.labels['console-name']"
        ∷ env_var_source "LABEL_SERVICE" "metadata.labels['service']"
        ∷ env_var_source "LABEL_ENVIRONMENT" "metadata.labels['environment']"
        ∷ env_var_source "LABEL_USER" "metadata.labels['user']"
        ∷ env_var "CONSOLE_ID" console_id
        ∷ env_var "SIDECAR_SHUTDOWN_DELAY" (r.print_number sidewrap_shutdown_delay)
        ∷ env_var "SIDECAR_GRACE_PERIOD" (r.print_number sidewrap_grace_period)
        ∷ env_var "TOPIC_ID" r.session_pubsub_topic_id
        ∷ env_var "PROJECT_ID" r.session_pubsub_project_id
        ∷ [];
    ports =
        record { name = "http-metrics-1"; container_port = 9882 }
        ∷ record { name = "http-metrics-2"; container_port = 9892 }
        ∷ [];
    volume_mounts =
        record {
          name = session_rec_vol_name;
          mount_path = session_rec_vol_mount;
          read_only = false;
        }
        ∷ [];
    limits = ("memory", "512Mi") ∷ ("cpu", "512m") ∷ [];
    requests = ("memory", "512Mi") ∷ ("cpu", "512m") ∷ [];
    stdin = false;
    tty = false;
  }

  -- The body of the loop over the containers: the command of the container is wrapped.
  unfoldable pub record_session : ℕ → Container → Container
  unfolding session_record_file_name
  record_session ix ctr = record ctr {
    command = "tlog-rec" ∷ [];
    args = "-o" ∷ session_record_file_name ix ∷ "--log-input" ∷ "--" ∷ (ctr.command ++ ctr.args);
    volume_mounts =
        ctr.volume_mounts
        ++ record {
          name = session_rec_vol_name;
          mount_path = session_rec_vol_mount;
          read_only = false;
        }
          ∷ [];
  }

  unfoldable pub record_sessions : ℕ → List Container → List Container
  record_sessions ix [] = []
  record_sessions ix (ctr ∷ ctrs) = record_session ix ctr ∷ record_sessions (ix + 1) ctrs

-- `ensureMinimum`
unfoldable pub ensure_minimum : Option ℕ → ℕ → Option ℕ
ensure_minimum none minimum = some minimum
ensure_minimum (some target) minimum = if ltb target minimum then some minimum else some target

-- `addSessionRecordingToPodTemplate`
unfoldable pub add_session_recording_to_pod_template :
    JobOptions → PodTemplate → String → PodTemplate
unfolding ensure_minimum build_sidecar_container
add_session_recording_to_pod_template r t console_id = record t {
  spec = record t.spec {
    volumes = t.spec.volumes ++ record { name = session_rec_vol_name; source = empty_dir } ∷ [];
    containers = record_sessions r 0 t.spec.containers ++ build_sidecar_container r console_id ∷ [];
    termination_grace_period_seconds =
        ensure_minimum t.spec.termination_grace_period_seconds
          (sidewrap_shutdown_delay + sidewrap_grace_period + 30);
  };
}

-- `labels.Merge`, where the second set wins; the maps are association lists without an order.
unfoldable pub merge : List (String × String) → List (String × String) → List (String × String)
merge first [] = first
merge first ((k, v) ∷ second) = insert k v (merge first second)

-- The command of the console, and the terminal unless it is not interactive.
override_command : List String → Container → Container
override_command [] ctr = ctr
override_command (c ∷ cs) ctr = record ctr { command = c ∷ []; args = cs }

with_terminal : Bool → Container → Container
with_terminal true ctr = ctr
with_terminal false ctr = record ctr { stdin = true; tty = true }

configure_first : Console → List Container → List Container
unfolding override_command with_terminal
configure_first csl [] = []
configure_first csl (ctr ∷ ctrs) =
    with_terminal csl.spec.noninteractive (override_command csl.spec.command ctr) ∷ ctrs

-- `strings.SplitN(s, "@", 2)[0]`
unfoldable pub before_at : String → String
before_at String.[] = ""
before_at (String.◌∷◌ c s) =
    if leb (code c) 64 && leb 64 (code c) then "" else String.◌∷◌ c (before_at s)

-- The labels of the job.
unfoldable pub job_labels : Console → ConsoleTemplate → List (String × String)
job_labels csl tpl = merge (merge csl.metadata.labels tpl.metadata.labels) (
    ("console-name", sanitise_label csl.metadata.name)
    ∷ ("user", sanitise_label (before_at csl.spec.user))
    ∷ [])

-- The template of the pod, before the recording of the session.
pod_template : Console → ConsoleTemplate → PodTemplate
unfolding configure_first
pod_template csl tpl =
    let t = tpl.spec.template in
    record t {
      metadata = record t.metadata { labels = merge (job_labels csl tpl) t.metadata.labels };
      spec = record t.spec {
        containers = configure_first csl t.spec.containers;
        restart_policy = "Never";
      };
    }

-- `buildJob`
unfoldable pub build_job : JobOptions → NamespacedName → Console → ConsoleTemplate → Job
unfolding pod_template
build_job r name csl tpl = record {
  metadata = record {
    name = get_job_name name.name;
    namespace = name.namespace;
    labels = job_labels csl tpl;
    annotations = [];
    owner_references = [];
    creation_timestamp = 0;
    deletion_timestamp = none;
  };
  spec = record {
    template =
        if r.enable_session_recording
        then add_session_recording_to_pod_template r (pod_template csl tpl) (r.build_id csl)
        else pod_template csl tpl;
    completions = some 1;
    parallelism = some 1;
    active_deadline_seconds = some csl.spec.timeout_seconds;
    backoff_limit = some 0;
    ttl_seconds_after_finished = none;
  };
  status = record { conditions = []; start_time = none; completion_time = none };
}
