-- ===== src/Secrets.antt =====
-- cmd/theatre-secrets/main.go: the program that runs in place of a container's command. It puts the
-- secrets that the environment refers to into the environment and into files, and then becomes the
-- command. Go visits a map in no fixed order; the loops over one start here at its last entry.
pub mod Referring
pub mod Planning
pub mod Fetching
pub mod Running
pub mod Resulting
pub mod Files
use Prim.Native.Char.{Char}
use theatre.Prelude.{
  ℕ, String, ◌==◌, ◌<>◌, Bool, true, false, not, ◌||◌, Option, none, some, List, [], ◌∷◌, Result,
  ok, err, Failure, if◌then◌else◌, insert, lookup,
}
use theatre.Prelude.Results.{message, panic, wrapped, ◌>>=◌}
use theatre.Prelude.Texts.{has_prefix, trim_prefix, contains, same_char}
use theatre.Vault.Annotation.{trim_space, cut_colon}

-- `environment`
abbrev pub Environment : Type 0
Environment = List (String × String)

pub record VaultFile : Type 0 where
  pub filesystem_path : String
  pub vault_key : String

-- What the value of a variable is: itself, a key of Vault, a key and a path for a file (or no path),
-- or a file reference without a key.
pub data Reference : Type 0 where
  plain : Reference
  secret : String → Reference
  secret_file : String → String → Reference
  empty_file : Reference

-- The two cases of `SplitN(trimmed, ":", 2)`.
file_of : String × Option String → Reference
file_of (vault_key, some path) = secret_file vault_key path
file_of (vault_key, none) = secret_file vault_key ""

unfoldable pub file_reference : String → Reference
unfolding file_of
file_reference trimmed = if trimmed == "" then empty_file else file_of (cut_colon trimmed)

-- The switch on the form of a value.
unfoldable pub classify : String → Reference
unfolding file_reference
classify value =
    if has_prefix value "vault:"
    then secret (trim_prefix value "vault:")
    else if has_prefix value "vault-file:"
    then file_reference (trim_space (trim_prefix value "vault-file:"))
    else plain

-- The four maps that the loop over the environment fills.
pub record Plan : Type 0 where
  pub keys_to_fetch : List (String × Bool)
  pub env_plain : Environment
  pub env_from_vault : Environment
  pub vault_files : List (String × VaultFile)

abbrev pub empty_plan : Plan
empty_plan = record { keys_to_fetch = []; env_plain = []; env_from_vault = []; vault_files = [] }

-- The body of the loop.
unfoldable pub add_entry : String → String → Reference → Plan → Result Plan
add_entry key value plain p = ok (record p { env_plain = insert key value p.env_plain })
add_entry key value (secret vault_key) p = ok (record p {
  keys_to_fetch = insert vault_key true p.keys_to_fetch;
  env_from_vault = insert key vault_key p.env_from_vault;
})
add_entry key value (secret_file vault_key path) p = ok (record p {
  keys_to_fetch = insert vault_key true p.keys_to_fetch;
  vault_files = insert key (record { filesystem_path = path; vault_key = vault_key }) p.vault_files;
})
add_entry key value empty_file p = err (message ("empty vault-file env var: " <> value))

unfoldable pub plan_of : Environment → Result Plan
unfolding add_entry
plan_of [] = ok empty_plan
plan_of ((key, value) ∷ env) = do p ← plan_of env; add_entry key value (classify value) p

grow_name : Char → String × Option String → String × Option String
grow_name c (name, value) = (String.◌∷◌ c name, value)

-- `strings.SplitN(element, "=", 2)`
unfoldable pub cut_equals : String → String × Option String
unfolding grow_name
cut_equals String.[] = ("", none)
cut_equals (String.◌∷◌ c s) =
    let rest = cut_equals s in if same_char c "=" then ("", some s) else grow_name c rest

-- `nameValue[1]`, which panics without an equals sign.
unfoldable pub name_value : String × Option String → Result (String × String)
name_value (name, some value) = ok (name, value)
name_value (name, none) = err (panic "index out of range")

-- The loop over `os.Environ()`, in which a later element replaces an earlier one.
unfoldable pub load_environ : List String → Environment → Result Environment
unfolding name_value
load_environ [] env = ok env
load_environ (element ∷ elements) env = do
  (name, value) ← name_value (cut_equals element)
  load_environ elements (insert name value env)

-- The values of the configuration file, which override the environment's.
unfoldable pub override : Environment → Environment → Environment
override [] env = env
override ((key, value) ∷ config) env = insert key value (override config env)

-- `os.Setenv`, whose error the program drops; a name that it refuses changes nothing. (It also
-- refuses the character NUL, which no variable of a process has.)
unfoldable pub set_env : String → String → Environment → Environment
set_env key value env = if key == "" || contains key "=" then env else insert key value env

unfoldable pub set_plain : Environment → Environment → Environment
unfolding set_env
set_plain [] env = env
set_plain ((key, value) ∷ env_plain) env = set_env key value (set_plain env_plain env)

-- A missing entry of a map of texts is the empty text.
unfoldable pub entry_of : Environment → String → String
entry_of m key = elim (lookup key m) [ none ↦ "" | some value ↦ value ]

unfoldable pub set_from_vault : Environment → Environment → Environment → Environment
unfolding set_env entry_of
set_from_vault secret_env [] env = env
set_from_vault secret_env ((key, vault_key) ∷ env_from_vault) env =
    set_env key (entry_of secret_env vault_key) (set_from_vault secret_env env_from_vault env)
