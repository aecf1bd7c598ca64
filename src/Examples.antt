-- ===== src/Examples.antt =====
-- Sample objects, and the theorems at concrete inputs.
pub mod Access
pub mod Directories
pub mod Lifecycle
pub mod Injecting
pub mod Shelf
pub mod Reconciling
pub mod Aborting
pub mod Running
pub mod Refusing
pub mod Loading
pub mod Publishing
use theatre.Prelude.{ℕ, String, List, [], ◌∷◌, Option, none, some, Bool, true, false}
use theatre.Kubernetes.{ObjectMeta, Subject, NamespacedName, RoleBinding, RoleRef}
use theatre.Kubernetes.Workload.{
  Container, PodSpec, Pod, PodTemplate, Job, JobSpec, JobStatus, ConditionType, complete, PodPhase,
}
use theatre.Console.{Console, ConsoleSpec, ConsoleStatus, Phase, running, pending_authorisation}
use theatre.Console.Template.{
  ConsoleTemplate, ConsoleTemplateSpec, ConsoleAuthorisationRule, ConsoleAuthorisers,
}
use theatre.ConsoleAuthorisation.{ConsoleAuthorisation}

abbrev pub meta : String → ObjectMeta
meta n = record {
  name = n;
  namespace = "staging";
  labels = ("team", "infra") ∷ [];
  annotations = [];
  owner_references = [];
  creation_timestamp = 1000;
  deletion_timestamp = none;
}

abbrev pub user : String → Subject
user n = record { kind = "User"; api_group = ""; name = n; namespace = "" }

abbrev pub key : String → NamespacedName
key n = record { namespace = "staging"; name = n }

abbrev pub shell : Container
shell = record {
  name = "app";
  image = "ruby";
  image_pull_policy = "";
  command = "rails" ∷ [];
  args = "console" ∷ [];
  env = [];
  ports = [];
  volume_mounts = [];
  limits = [];
  requests = [];
  stdin = false;
  tty = false;
}

abbrev pub pod_spec : PodSpec
pod_spec = record {
  containers = shell ∷ [];
  init_containers = [];
  volumes = [];
  restart_policy = "";
  service_account_name = "";
  termination_grace_period_seconds = some 30;
  security_context = none;
}

abbrev pub migrations : ConsoleAuthorisationRule
migrations = record {
  name = "migrations";
  match_command_elements = "rails" ∷ "*" ∷ "**" ∷ [];
  authorisers = record { authorisations_required = 2; subjects = user "dba" ∷ [] };
}

abbrev pub template : ConsoleTemplate
template = record {
  metadata = meta "template";
  spec = record {
    template = record { metadata = meta "pod"; spec = pod_spec };
    default_timeout_seconds = 600;
    max_timeout_seconds = 3600;
    additional_attach_subjects = [];
    default_ttl_seconds_before_running = none;
    default_ttl_seconds_after_finished = none;
    authorisation_rules = migrations ∷ [];
    default_authorisation_rule = some (record { authorisations_required = 0; subjects = [] });
  };
}

abbrev pub console_in : Phase → Console
console_in phase = record {
  metadata = meta "console";
  spec = record {
    user = "alice@example.com";
    reason = "debugging";
    timeout_seconds = 60;
    console_template_ref = "template";
    ttl_seconds_before_running = some 10;
    ttl_seconds_after_finished = some 20;
    command = "rails" ∷ "c" ∷ [];
    noninteractive = false;
  };
  status = record {
    pod_name = "pod";
    expiry_time = some 5000;
    completion_time = none;
    phase = phase;
  };
}

abbrev pub authorised_by : List Subject → ConsoleAuthorisation
authorised_by subjects = record {
  metadata = meta "console";
  console_ref = "console";
  authorisations = subjects;
}

abbrev pub job : Job
job = record {
  metadata = meta "console-console";
  spec = record {
    template = record { metadata = meta "pod"; spec = pod_spec };
    completions = some 1;
    parallelism = some 1;
    active_deadline_seconds = some 60;
    backoff_limit = some 0;
    ttl_seconds_after_finished = none;
  };
  status = record {
    conditions = complete ∷ [];
    start_time = some 2000;
    completion_time = some 3000;
  };
}
