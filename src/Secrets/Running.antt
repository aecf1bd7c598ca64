-- ===== src/Secrets/Running.antt =====
-- cmd/theatre-secrets/main.go: the two commands. What they do to Vault, the file system and the
-- process is a record of operations on a state; the environment of the process is its second part.
use theatre.Prelude.{
  String, ◌==◌, ◌<>◌, Bool, not, Option, none, some, List, [], ◌∷◌, Result, ok, err, Failure,
  if◌then◌else◌,
}
use theatre.Prelude.Results.{message, panic, wrapped}
use theatre.Prelude.Exec.{Exec, pure, raise, lift, wrapping, ◌>>=◌}
use theatre.Secrets.{
  Environment, VaultFile, plan_of, load_environ, override, set_env, set_plain, set_from_vault,
  entry_of,
}
use theatre.Secrets.Fetching.{Answer, fetch}

-- `vaultOptions`; the timeout and the TLS flags only configure the HTTP client.
pub record VaultOptions : Type 0 where
  pub address : String
  pub use_tls : Bool
  pub insecure_skip_verify : Bool
  pub token : String
  pub auth_backend_mount_point : String
  pub auth_backend_role : String
  pub path_prefix : String

-- The flags of `exec`.
pub record ExecFlags : Type 0 where
  pub vault : VaultOptions
  pub config_file : String
  pub service_account_token_file : String
  pub command : List String

-- What the program calls: `Http` is the type of Vault's HTTP responses.
pub record System (S Http : Type 0) : Type 0 where
  pub read_file : String → S → Result String
  pub in_cluster_token : S → Result String
  pub client_config_token : S → Result String
  pub new_client : VaultOptions → S → Result (Unit {0})
  -- The login request: its path, the token and the role.
  pub raw_request : String → String → String → Exec S Http
  pub response_error : Http → Option Failure
  pub decode_token : Http → Result String
  -- A read with the options, which hold the token, of a path.
  pub read_secret : VaultOptions → S → String → Result Answer
  -- The environment of a YAML file, if it has one.
  pub unmarshal : String → Result (Option Environment)
  pub environ : Environment → List String
  pub join_path : String → String → String
  pub dir : String → String
  pub create_temp : String → Exec S String
  pub mkdir_all : String → Exec S (Unit {0})
  pub write_file : String → String → Exec S (Unit {0})
  pub look_path : String → S → Result String
  pub exec : String → List String → List String → Exec S (Unit {0})
  pub open_file : String → S → Result (Unit {0})
  pub create : String → Exec S (Unit {0})
  pub copy : String → String → Exec S (Unit {0})
  pub chmod_executable : String → Exec S (Unit {0})

module _ {S Http : Type 0} (k : System S Http) where
  -- `getKubernetesToken`
  unfoldable pub fallback_token : Result String → S → Result String
  fallback_token (ok token) s = ok token
  fallback_token (err e) s =
      wrapped "failed to construct kubernetes client" (k.client_config_token s)

  unfoldable pub get_kubernetes_token : String → S → Result String
  unfolding fallback_token
  get_kubernetes_token token_file_override s =
      if not (token_file_override == "")
      then wrapped "failed to read kubernetes token file" (k.read_file token_file_override s)
      else fallback_token (k.in_cluster_token s) s

  -- `vaultOptions.Client`
  unfoldable pub client : VaultOptions → S → Result (Unit {0})
  client o s = wrapped "failed to create vault client" (k.new_client o s)

  abbrev failing : Option Failure → Result (Unit {0})
  failing none = ok tt
  failing (some e) = err e

  -- `Login`
  unfoldable pub login : VaultOptions → String → Exec S String
  unfolding client
  login o jwt = do
    _ ← (λ s. (client o s, s))
    resp ← wrapping "failed to perform login POST request against Vault auth backend mount" (
        k.raw_request ("/v1/auth/" <> (o.auth_backend_mount_point <> "/login")) jwt
          o.auth_backend_role)
    _ ←
        wrapping "received error response from login POST request against Vault auth backend mount"
          (lift (failing (k.response_error resp)))
    wrapping "failed to decode vault login response" (lift (k.decode_token resp))

  -- `loadConfigFromFile`
  abbrev environment_key : Option Environment → Result Environment
  environment_key none = err (message "missing 'environment' key in configuration file")
  environment_key (some environment) = ok environment

  unfoldable pub load_config_from_file : String → Exec S Environment
  load_config_from_file config_file = do
    yaml ← wrapping "failed to open config file" (λ s. (k.read_file config_file s, s))
    environment ← wrapping "failed to parse config" (lift (k.unmarshal yaml))
    lift (environment_key environment)

  -- The token of the options, or the one of a login.
  unfoldable pub authenticate : ExecFlags → Exec S VaultOptions
  unfolding login get_kubernetes_token
  authenticate flags =
      if flags.vault.token == ""
      then (do
        jwt ←
            wrapping "failed to authenticate within kubernetes"
              (λ s. (get_kubernetes_token flags.service_account_token_file s, s))
        token ← wrapping "failed to login to vault" (login flags.vault jwt)
        pure (record flags.vault { token = token }))
      else pure flags.vault

  unfoldable pub load_environment : ExecFlags → Environment → Exec S Environment
  unfolding load_config_from_file
  load_environment flags env = do
    loaded ← lift (load_environ (k.environ env) [])
    if not (flags.config_file == "")
        then (do config ← load_config_from_file flags.config_file; pure (override config loaded))
        else pure loaded

  -- The path of a file: its own, or that of a new temporary file.
  unfoldable pub path_of : String → VaultFile → Exec S String
  path_of key file =
      if file.filesystem_path == ""
      then wrapping ("failed to write temporary file for key " <> key) (k.create_temp (key <> "-*"))
      else pure file.filesystem_path

  -- The loop over the files, which hands back the environment.
  unfoldable pub write_files :
      Environment → List (String × VaultFile) → Environment → Exec S Environment
  unfolding path_of
  write_files secret_env [] env = pure env
  write_files secret_env ((key, file) ∷ files) env = do
    between ← write_files secret_env files env
    path ← path_of key file
    _ ← wrapping "failed to ensure path structure is available" (k.mkdir_all (k.dir path))
    _ ←
        wrapping ("failed to write file with key " <> (key <> (" to path " <> path)))
          (k.write_file path (entry_of secret_env file.vault_key))
    pure (set_env key path between)

  -- The end: the command, with its arguments, in the environment.
  unfoldable pub run_command : List String → Environment → Exec S (Unit {0})
  run_command [] env = raise (panic "index out of range")
  run_command (command ∷ args) env = do
    binary ←
        wrapping ("failed to find application " <> (command <> " in path"))
          (λ s. (k.look_path command s, s))
    wrapping "failed to execute wrapped program" (k.exec binary (command ∷ args) (k.environ env))

  -- `mainError` for `exec`, in an environment
  unfoldable pub exec_command : ExecFlags → Environment → Exec S (Unit {0})
  unfolding authenticate load_environment write_files run_command client
  exec_command flags env = do
    vault ← authenticate flags
    _ ← (λ s. (client vault s, s))
    values ← load_environment flags env
    plan ← lift (plan_of values)
    secret_env ←
        (λ s. (fetch (k.read_secret vault s) (k.join_path vault.path_prefix) plan.keys_to_fetch, s))
    final ←
        write_files secret_env plan.vault_files
          (set_from_vault secret_env plan.env_from_vault (set_plain plan.env_plain env))
    run_command flags.command final

  -- `copyExecutable`
  unfoldable pub copy_executable : String → String → Exec S (Unit {0})
  copy_executable src dst = do
    _ ← (λ s. (k.open_file src s, s))
    _ ← k.create dst
    _ ← wrapping ("error copying " <> (src <> (" -> " <> dst))) (k.copy src dst)
    wrapping ("failed to make executable: " <> dst) (k.chmod_executable dst)

  -- `mainError` for `install`
  unfoldable pub install_command : String → String → Exec S (Unit {0})
  unfolding copy_executable
  install_command binary install_path =
      wrapping "error copying file"
        (copy_executable binary (k.join_path install_path "theatre-secrets"))
