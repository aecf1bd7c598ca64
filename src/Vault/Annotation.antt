-- ===== src/Vault/Annotation.antt =====
-- secretsinjector_webhook.go: the annotation that names the containers and their configuration files.
use Prim.Native.Char.{Char, code}
use theatre.Prelude.{
  ℕ, ◌<>◌, String, Bool, ◌&&◌, ◌||◌, leb, Option, none, some, List, [], ◌∷◌, if◌then◌else◌, lookup,
  insert,
}

-- `FQDNArray`
abbrev pub fqdn_array : List String
fqdn_array =
    "secrets-injector.vault.crd.gocardless.com" ∷ "envconsul-injector.vault.crd.gocardless.com" ∷ []

first_of : List (String × String) → List String → Option String
first_of annotations [] = none
first_of annotations (name ∷ names) = elim (lookup (name <> "/configs") annotations) [
  | some data_ ↦ some data_
  | none ↦ first_of annotations names
]

-- `getFQDNConfig` with `FQDNArray`
unfoldable pub get_fqdn_config : List (String × String) → Option String
unfolding first_of
get_fqdn_config annotations = first_of annotations fqdn_array

abbrev is_code : ℕ → Char → Bool
is_code n c = leb n (code c) && leb (code c) n

-- A character before the first of the texts.
grow_first : Char → List String → List String
grow_first c [] = String.◌∷◌ c "" ∷ []
grow_first c (w ∷ ws) = String.◌∷◌ c w ∷ ws

-- `strings.Split(s, ",")`
unfoldable pub split_commas : String → List String
unfolding grow_first
split_commas String.[] = "" ∷ []
split_commas (String.◌∷◌ c s) =
    let rest = split_commas s in if is_code 44 c then "" ∷ rest else grow_first c rest

grow_left : Char → String × Option String → String × Option String
grow_left c (s, rest) = (String.◌∷◌ c s, rest)

-- `strings.SplitN(s, ":", 2)`: the text before the first colon, and the one after it.
unfoldable pub cut_colon : String → String × Option String
unfolding grow_left
cut_colon String.[] = ("", none)
cut_colon (String.◌∷◌ c s) =
    let rest = cut_colon s in if is_code 58 c then ("", some s) else grow_left c rest

-- `unicode.IsSpace`
unfoldable pub is_space : Char → Bool
is_space c =
    (leb 9 (code c) && leb (code c) 13)
    || is_code 32 c
    || is_code 133 c
    || is_code 160 c
    || is_code 5760 c
    || (leb 8192 (code c) && leb (code c) 8202)
    || is_code 8232 c
    || is_code 8233 c
    || is_code 8239 c
    || is_code 8287 c
    || is_code 12288 c

trim_left : String → String
trim_left String.[] = ""
trim_left (String.◌∷◌ c s) = let rest = trim_left s in if is_space c then rest else String.◌∷◌ c s

-- A character before a trimmed text, unless it would end the text as a space.
put_before : Char → String → String
put_before c String.[] = if is_space c then "" else String.◌∷◌ c ""
put_before c (String.◌∷◌ d s) = String.◌∷◌ c (String.◌∷◌ d s)

trim_right : String → String
unfolding put_before
trim_right String.[] = ""
trim_right (String.◌∷◌ c s) = put_before c (trim_right s)

-- `strings.TrimSpace`
unfoldable pub trim_space : String → String
unfolding trim_left trim_right
trim_space s = trim_right (trim_left s)

-- The body of the loop: a container without a file has the empty text.
config_of : String → String × String
config_of entry =
    let (name, file) = cut_colon entry in
    (trim_space name, elim file [ none ↦ "" | some f ↦ trim_space f ])

-- A later entry for a container replaces an earlier one.
pub configs_from : List (String × String) → List String → List (String × String)
unfolding config_of
configs_from configs [] = configs
configs_from configs (e ∷ es) =
    let (name, file) = config_of e in configs_from (insert name file configs) es

-- `parseContainerConfigs`, of the annotations of the pod
unfoldable pub parse_container_configs : List (String × String) → Option (List (String × String))
unfolding configs_from
parse_container_configs annotations = elim (get_fqdn_config annotations) [
  | none ↦ none
  | some config_string ↦ some (configs_from [] (split_commas config_string))
]
