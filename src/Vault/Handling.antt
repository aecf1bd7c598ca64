-- ===== src/Vault/Handling.antt =====
-- secretsinjector_webhook.go: the answers of the webhook and what it counts.
use theatre.Prelude.{
  ◌+◌, ◌≡◌, String, ◌==◌, ◌≢◌, refl, Option, none, some, arith, if◌then◌else◌, Option-cases, inl,
  inr, ok, err, Result,
}
use theatre.Kubernetes.Workload.{Pod}
use theatre.Vault.{
  SecretsInjectorOptions, VaultConfig, Environment, Counters, allowed, patched, is_allowed, handle,
  handle_pod, finish, answer, inject_into, inject, with_request,
}
use theatre.Vault.Annotation.{get_fqdn_config}

-- A pod that decodes and has no annotation is let through without a change, whatever the state of the
-- config map and of the encoder, and counts as skipped.
pub handle_unannotated :
    (i : SecretsInjectorOptions) (req : Environment) (n : Counters) (pod : Pod)
    → req.decode ≡ some pod
    → get_fqdn_config pod.metadata.annotations ≡ none
    → handle i req n ≡ (
      allowed "no annotation found",
      record n { handled = n.handled + 1; skipped = n.skipped + 1 },
    )
unfolding handle handle_pod finish is_allowed
handle_unannotated i req n pod decodes plain = rw (decodes, plain, handle_pod) refl

-- A request counts once as handled, and as an error exactly when it is refused; and it counts at most
-- once as skipped or mutated, and as neither only when the pod does not decode.
pub handle-counts :
    (i : SecretsInjectorOptions) (req : Environment) (n : Counters)
    → (((handle i req n).1).handled ≡ n.handled + 1)
      × (((handle i req n).1).errors ≡ n.errors + (if is_allowed (handle i req n).0 then 0 else 1))
      × (((handle i req n).1).skipped + ((handle i req n).1).mutated
          ≡ n.skipped + n.mutated + (elim req.decode [ none ↦ 0 | some _ ↦ 1 ]))
unfolding handle handle_pod finish
handle-counts i req n = elim (Option-cases req.decode) [
  | inl e ↦ rw e (unfold is_allowed in ground arith)
  | inr (pod, e) ↦ elim (Option-cases (get_fqdn_config pod.metadata.annotations)) [
    | inl plain ↦ rw (e, plain, handle_pod) (unfold is_allowed in ground arith)
    | inr (text, marked) ↦ rw (e, marked, handle_pod) (ground arith)
  ]
]

answer-patched :
    (req : Environment) (result : Option Pod) (after : Pod)
    → answer req result ≡ patched after
    → result ≡ some after
unfolding answer
answer-patched req none after h = ground arith
answer-patched req (some pod) after h = ground arith

inject_into-patched :
    (i : SecretsInjectorOptions) (req : Environment) (pod : Pod) (config : Result VaultConfig)
    (after : Pod)
    → inject_into i req pod config ≡ patched after
    → (v : VaultConfig) × (config ≡ ok v) × (inject i v pod ≡ some after)
unfolding inject_into
inject_into-patched i req pod (ok v) after h =
    (v, refl, answer-patched req (inject i v pod) after h)
inject_into-patched i req pod (err e) after h = absurd (ground arith)

-- A pod under another name in another namespace.
abbrev pub renamed : Pod → String → String → Pod
renamed pod namespace name = record pod {
  metadata = record pod.metadata { namespace = namespace; name = name };
}

-- A pod that the webhook changes is a decoded one with an annotation, and it is what `Inject` makes, by
-- the configuration of the cluster, of that pod in the namespace of the request and under its name, if
-- the request has one, and with nothing else changed.
pub handle-patched :
    (i : SecretsInjectorOptions) (req : Environment) (n : Counters) (after : Pod)
    → (handle i req n).0 ≡ patched after
    → (pod : Pod) × (named : Pod) × (v : VaultConfig) × (req.decode ≡ some pod)
      × (get_fqdn_config pod.metadata.annotations ≢ none)
      × (req.vault_config ≡ ok v)
      × (named.metadata.namespace ≡ req.namespace)
      × (named.metadata.name
          ≡ (if req.request_name == "" then pod.metadata.name else req.request_name))
      × (renamed named pod.metadata.namespace pod.metadata.name ≡ pod)
      × (inject i v named ≡ some after)
unfolding handle handle_pod finish with_request
handle-patched i req n after h = elim (Option-cases req.decode) [
  | inl e ↦ absurd (ground arith)
  | inr (pod, e) ↦ elim (Option-cases (get_fqdn_config pod.metadata.annotations)) [
    | inl plain ↦ absurd (ground arith)
    | inr (text, marked) ↦
        let (v, configured, made) =
          inject_into-patched i req (with_request req pod) req.vault_config after (ground arith) in
        (pod, with_request req pod, v, e, λ plain. ground arith, configured, refl, refl, refl, made)
  ]
]
