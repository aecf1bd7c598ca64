-- ===== src/Vault.antt =====
-- internal/webhook/vault/v1alpha1/secretsinjector_webhook.go: the webhook that makes annotated pods run
-- their commands under theatre-secrets.
pub mod Annotation
pub mod Injection
pub mod Handling
use theatre.Prelude.{
  ℕ, ◌+◌, ◌<>◌, ◌==◌, String, Bool, true, false, not, Option, none, some, List, [], ◌∷◌, ◌++◌,
  if◌then◌else◌, lookup, Result, ok, err, Failure,
}
use theatre.Kubernetes.{ObjectMeta}
use theatre.Kubernetes.Workload.{
  VolumeMount, Container, VolumeSource, empty_dir, service_account_token, Volume, PodSpec, Pod,
}
use theatre.Vault.Annotation.{get_fqdn_config, parse_container_configs}

-- `SecretsInjectorOptions`, the durations in seconds, and the functions of Go's `path` package and
-- `Duration.String` that the code calls.
pub record SecretsInjectorOptions : Type 0 where
  pub image : String
  pub install_path : String
  pub service_account_token_file : String
  pub service_account_token_expiry : ℕ
  pub service_account_token_audience : String
  pub timeout : ℕ
  pub debug : Bool
  pub path_base : String → String
  pub path_dir : String → String
  pub path_join : List String → String
  pub print_duration : ℕ → String

-- `vaultConfig`
pub record VaultConfig : Type 0 where
  pub address : String
  pub auth_mount_path : String
  pub auth_role : String
  pub secret_mount_path_prefix : String

module _ (i : SecretsInjectorOptions) where
  -- `buildInitContainer`
  unfoldable pub build_init_container : Container
  build_init_container = record {
    name = "theatre-secrets-injector";
    image = i.image;
    image_pull_policy = "IfNotPresent";
    command = "theatre-secrets" ∷ "install" ∷ "--path" ∷ i.install_path ∷ [];
    args = [];
    env = [];
    ports = [];
    volume_mounts =
        record { name = "theatre-secrets-install"; mount_path = i.install_path; read_only = false }
        ∷ [];
    limits = ("memory", "64Mi") ∷ ("cpu", "50m") ∷ [];
    requests = ("memory", "64Mi") ∷ ("cpu", "50m") ∷ [];
    stdin = false;
    tty = false;
  }

  -- The arguments before those of the container, `--` left out.
  unfoldable pub exec_args : VaultConfig → String → String → List String
  exec_args v config_path prefix =
      "exec"
      ∷ ((if i.debug then "--debug" ∷ [] else [])
          ++ ("--vault-address"
              ∷ v.address
              ∷ "--vault-http-timeout"
              ∷ i.print_duration i.timeout
              ∷ "--vault-path-prefix"
              ∷ prefix
              ∷ "--auth-backend-mount-path"
              ∷ v.auth_mount_path
              ∷ "--auth-backend-role"
              ∷ v.auth_role
              ∷ "--service-account-token-file"
              ∷ i.service_account_token_file
              ∷ (if config_path == "" then [] else "--config-file" ∷ config_path ∷ [])))

  -- `configureContainer`
  unfoldable pub configure_container : VaultConfig → Container → String → String → Container
  configure_container v reference config_path prefix = record reference {
    command = i.path_join (i.install_path ∷ "theatre-secrets" ∷ []) ∷ [];
    args = exec_args v config_path prefix ++ "--" ∷ (reference.command ++ reference.args);
    volume_mounts =
        reference.volume_mounts
        ++ record {
          name = "theatre-secrets-install";
          mount_path = i.install_path;
          read_only = true;
        }
          ∷ record {
            name = "theatre-secrets-serviceaccount";
            mount_path = i.path_dir i.service_account_token_file;
            read_only = true;
          }
          ∷ [];
  }

  -- The body of the loop over the containers, by what the annotation says of the container.
  unfoldable pub configure_if : VaultConfig → String → Container → Option String → Container
  configure_if v prefix c none = c
  configure_if v prefix c (some config_path) = configure_container v c config_path prefix

  unfoldable pub configure_all :
      VaultConfig → List (String × String) → String → List Container → List Container
  configure_all v configs prefix [] = []
  configure_all v configs prefix (c ∷ cs) =
      configure_if v prefix c (lookup c.name configs) ∷ configure_all v configs prefix cs

  -- The mode of the token is the number 444, which is octal 674.
  volumes : List Volume
  volumes =
      record { name = "theatre-secrets-install"; source = empty_dir }
      ∷ record {
        name = "theatre-secrets-serviceaccount";
        source =
            service_account_token 444 (i.path_base i.service_account_token_file)
              i.service_account_token_expiry i.service_account_token_audience;
      }
      ∷ []

  -- The file system group, when there is none.
  fs_group : Option (Option ℕ) → Option (Option ℕ)
  fs_group none = some (some 1000)
  fs_group (some none) = some (some 1000)
  fs_group (some (some g)) = some (some g)

  unfoldable pub mutate : VaultConfig → Pod → List (String × String) → Pod
  unfolding volumes fs_group
  mutate v pod configs = record pod {
    spec = record pod.spec {
      init_containers = pod.spec.init_containers ++ build_init_container ∷ [];
      volumes = pod.spec.volumes ++ volumes;
      security_context = fs_group pod.spec.security_context;
      containers =
          configure_all v configs
            (i.path_join (
              v.secret_mount_path_prefix ∷ pod.metadata.namespace ∷ pod.spec.service_account_name
              ∷ []))
            pod.spec.containers;
    };
  }

  -- `Inject`
  unfoldable pub inject : VaultConfig → Pod → Option Pod
  unfolding mutate
  inject v pod = elim (parse_container_configs pod.metadata.annotations) [
    | none ↦ none
    | some configs ↦ some (mutate v pod configs)
  ]

-- What the webhook answers, and the counters it keeps.
pub data Response : Type 0 where
  allowed : String → Response
  errored : ℕ → Response
  patched : Pod → Response

pub record Counters : Type 0 where
  pub handled : ℕ
  pub mutated : ℕ
  pub skipped : ℕ
  pub errors : ℕ

-- The calls of the code that is not here: the decoder of the request, the client with the decoder of
-- the config map, and the encoder, where `true` is a failure.
pub record Environment : Type 0 where
  pub decode : Option Pod
  pub vault_config : Result VaultConfig
  pub marshal_fails : Pod → Bool
  pub namespace : String
  pub request_name : String

unfoldable pub is_allowed : Response → Bool
is_allowed (errored _) = false
is_allowed _ = true

-- The deferred function.
unfoldable pub finish : Response × Counters → Response × Counters
unfolding is_allowed
finish (resp, n) = (
  resp,
  record n { handled = n.handled + 1; errors = if is_allowed resp then n.errors else n.errors + 1 },
)

-- The pod takes the namespace of the request, and its name if it has one.
unfoldable pub with_request : Environment → Pod → Pod
with_request req pod = record pod {
  metadata = record pod.metadata {
    namespace = req.namespace;
    name = if req.request_name == "" then pod.metadata.name else req.request_name;
  };
}

-- The answer for an injected pod.
unfoldable pub answer : Environment → Option Pod → Response
answer req none = allowed "no annotation found"
answer req (some pod) = if req.marshal_fails pod then errored 500 else patched pod

unfoldable pub inject_into :
    SecretsInjectorOptions → Environment → Pod → Result VaultConfig → Response
unfolding answer
inject_into i req pod (ok v) = answer req (inject i v pod)
inject_into i req pod (err _) = errored 500

unfoldable pub handle_pod :
    SecretsInjectorOptions → Environment → Counters → Option Pod → Response × Counters
unfolding with_request inject_into
handle_pod i req n none = (errored 400, n)
handle_pod i req n (some pod) = elim (get_fqdn_config pod.metadata.annotations) [
  | none ↦ (allowed "no annotation found", record n { skipped = n.skipped + 1 })
  | some _ ↦ (
    inject_into i req (with_request req pod) req.vault_config,
    record n { mutated = n.mutated + 1 },
  )
]

-- `Handle`
unfoldable pub handle : SecretsInjectorOptions → Environment → Counters → Response × Counters
unfolding finish handle_pod
handle i req n = finish (handle_pod i req n req.decode)
