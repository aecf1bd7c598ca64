-- ===== src/Examples/Loading.antt =====
-- The environment of a program with a plain variable, a reference to Vault and a file.
use theatre.Prelude.{◌≡◌, String, ◌<>◌, true, [], ◌∷◌, Result, ok}
use theatre.Secrets.{Environment, Plan, classify, secret}
use theatre.Secrets.Fetching.{Answer, data_text}
use theatre.Secrets.Referring.{classify-IsWritten, vault}

abbrev env : Environment
env = ("TERM", "xterm") ∷ ("TOKEN", "vault:api/token") ∷ []

abbrev plan : Plan
plan = record {
  keys_to_fetch = ("api/token", true) ∷ [];
  env_plain = ("TERM", "xterm") ∷ [];
  env_from_vault = ("TOKEN", "api/token") ∷ [];
  vault_files = [];
}

abbrev read_all : String → Result Answer
read_all path = ok (data_text "secret")

abbrev full_path : String → String
full_path key = "kv/" <> key

classify-IsWritten_example : classify ("vault:" <> "api/token") ≡ secret "api/token"
classify-IsWritten_example = classify-IsWritten (vault "api/token")
