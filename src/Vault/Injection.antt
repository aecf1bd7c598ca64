-- ===== src/Vault/Injection.antt =====
-- secretsinjector_webhook.go: what injection does to the containers of a pod.
use theatre.Prelude.{
  ◌≡◌, refl, String, Option, none, some, List, [], ◌∷◌, ◌++◌, lookup, Option-cases, ◌⊎◌, inl, inr,
}
use theatre.Kubernetes.Workload.{Container, Pod}
use theatre.Vault.{
  SecretsInjectorOptions, VaultConfig, configure_container, configure_if, configure_all, mutate,
  inject, build_init_container, exec_args,
}
use theatre.Vault.Annotation.{configs_from, split_commas, get_fqdn_config, parse_container_configs}

-- What a container becomes, by what the annotation says of its name.
pub data IsConfigured (i : SecretsInjectorOptions) (configs : List (String × String))
    (c : Container) : Container → Type 0 where
  -- A container that the annotation does not name is left alone.
  unnamed : lookup c.name configs ≡ none → IsConfigured i configs c c
  -- Another runs the installed binary, whose arguments end with `--` and its own command line; it
  -- keeps its name, its image and its environment.
  injected :
      {d : Container} {path : String} (before : List String)
      → lookup c.name configs ≡ some path
      → d.command ≡ i.path_join (i.install_path ∷ "theatre-secrets" ∷ []) ∷ []
      → d.args ≡ before ++ "--" ∷ (c.command ++ c.args)
      → d.name ≡ c.name
      → d.image ≡ c.image
      → d.env ≡ c.env
      → IsConfigured i configs c d

-- Two lists of containers, one by one.
pub data AreConfigured (i : SecretsInjectorOptions) (configs : List (String × String))
    : List Container → List Container → Type 0 where
  done : AreConfigured i configs [] []
  next :
      {c d : Container} {cs ds : List Container}
      → IsConfigured i configs c d
      → AreConfigured i configs cs ds
      → AreConfigured i configs (c ∷ cs) (d ∷ ds)

configure_if-IsConfigured :
    (i : SecretsInjectorOptions) (v : VaultConfig) (prefix : String)
    (configs : List (String × String)) (c : Container) (config : Option String)
    → lookup c.name configs ≡ config
    → IsConfigured i configs c (configure_if i v prefix c config)
unfolding configure_if configure_container
configure_if-IsConfigured i v prefix configs c none e = unnamed e
configure_if-IsConfigured i v prefix configs c (some path) e =
    injected (exec_args i v path prefix) e refl refl refl refl refl

configure_all-AreConfigured :
    (i : SecretsInjectorOptions) (v : VaultConfig) (prefix : String)
    (configs : List (String × String)) (cs : List Container)
    → AreConfigured i configs cs (configure_all i v configs prefix cs)
unfolding configure_all
configure_all-AreConfigured i v prefix configs [] = done
configure_all-AreConfigured i v prefix configs (c ∷ cs) =
    next (configure_if-IsConfigured i v prefix configs c (lookup c.name configs) refl)
      (configure_all-AreConfigured i v prefix configs cs)

-- What injection into a pod gives: the containers one by one, and after the pod's own init containers
-- the one that installs the binary.
pub record IsInjected (i : SecretsInjectorOptions) (configs : List (String × String))
    (before after : Pod) : Type 0 where
  pub containers : AreConfigured i configs before.spec.containers after.spec.containers
  pub init_containers :
      after.spec.init_containers ≡ before.spec.init_containers ++ build_init_container i ∷ []
  pub metadata : after.metadata ≡ before.metadata

-- `Inject` refuses a pod exactly when it has no annotation, and else configures each container that
-- the annotation names and leaves the others alone.
pub inject-IsInjected :
    (i : SecretsInjectorOptions) (v : VaultConfig) (pod : Pod)
    → ((get_fqdn_config pod.metadata.annotations ≡ none) × (inject i v pod ≡ none))
      ⊎ ((configs : List (String × String)) × (after : Pod) × (parse_container_configs
              pod.metadata.annotations
            ≡ some configs)
          × (inject i v pod ≡ some after)
          × IsInjected i configs pod after)
unfolding inject parse_container_configs mutate
inject-IsInjected i v pod = elim (Option-cases (get_fqdn_config pod.metadata.annotations)) [
  | inl e ↦ inl (e, rw (e, inject, parse_container_configs) refl)
  | inr (text, e) ↦ inr (
    configs_from [] (split_commas text),
    mutate i v pod (configs_from [] (split_commas text)),
    rw (e, parse_container_configs) refl,
    rw (e, inject, parse_container_configs) refl,
    record {
      containers = configure_all-AreConfigured i v _ _ pod.spec.containers;
      init_containers = refl;
      metadata = refl;
    },
  )
]
