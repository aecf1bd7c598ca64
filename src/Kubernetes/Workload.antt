-- ===== src/Kubernetes/Workload.antt =====
-- Containers, pods and jobs of the Kubernetes API, with the fields that the code reads or writes.
use theatre.Prelude.{ℕ, String, Bool, Option, List}
use theatre.Kubernetes.{ObjectMeta}

pub record EnvVar : Type 0 where
  pub name : String
  pub value : String
  -- `ValueFrom.FieldRef.FieldPath`
  pub field_path : Option String

pub record VolumeMount : Type 0 where
  pub name : String
  pub mount_path : String
  pub read_only : Bool

pub record ContainerPort : Type 0 where
  pub name : String
  pub container_port : ℕ

pub record Container : Type 0 where
  pub name : String
  pub image : String
  pub image_pull_policy : String
  pub command : List String
  pub args : List String
  pub env : List EnvVar
  pub ports : List ContainerPort
  pub volume_mounts : List VolumeMount
  -- Limits and requests, as the quantities' texts.
  pub limits : List (String × String)
  pub requests : List (String × String)
  pub stdin : Bool
  pub tty : Bool

pub data VolumeSource : Type 0 where
  empty_dir : VolumeSource
  -- default mode, path, expiry in seconds and audience of a projected service account token
  service_account_token : ℕ → String → ℕ → String → VolumeSource
  other : String → VolumeSource

pub record Volume : Type 0 where
  pub name : String
  pub source : VolumeSource

pub record PodSpec : Type 0 where
  pub containers : List Container
  pub init_containers : List Container
  pub volumes : List Volume
  pub restart_policy : String
  pub service_account_name : String
  pub termination_grace_period_seconds : Option ℕ
  -- `SecurityContext`, of which only the file system group is used
  pub security_context : Option (Option ℕ)

pub data PodPhase : Type 0 where
  pending running succeeded failed unknown : PodPhase

-- `ContainerStateTerminated`. An exit code is a number here, as the runtime's codes are.
pub record Terminated : Type 0 where
  pub exit_code : ℕ
  pub signal : ℕ
  pub reason : String
  pub message : String

-- `ContainerStateWaiting`
pub record Waiting : Type 0 where
  pub reason : String
  pub message : String

-- `ContainerState`, of which at most one is set, and the name of the container.
pub record ContainerStatus : Type 0 where
  pub name : String
  pub terminated : Option Terminated
  pub waiting : Option Waiting

pub record Pod : Type 0 where
  pub metadata : ObjectMeta
  pub spec : PodSpec
  pub phase : PodPhase
  pub status_message : String
  pub init_container_statuses : List ContainerStatus
  pub container_statuses : List ContainerStatus
  pub ephemeral_container_statuses : List ContainerStatus

pub record PodTemplate : Type 0 where
  pub metadata : ObjectMeta
  pub spec : PodSpec

pub data ConditionType : Type 0 where
  complete failed suspended : ConditionType

pub record JobStatus : Type 0 where
  pub conditions : List ConditionType
  pub start_time : Option ℕ
  pub completion_time : Option ℕ

pub record JobSpec : Type 0 where
  pub template : PodTemplate
  pub completions : Option ℕ
  pub parallelism : Option ℕ
  pub active_deadline_seconds : Option ℕ
  pub backoff_limit : Option ℕ
  pub ttl_seconds_after_finished : Option ℕ

pub record Job : Type 0 where
  pub metadata : ObjectMeta
  pub spec : JobSpec
  pub status : JobStatus
