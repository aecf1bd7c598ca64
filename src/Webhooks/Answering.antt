-- ===== src/Webhooks/Answering.antt =====
-- internal/webhook/workloads/v1alpha1: who is recorded as a console's user, which templates are let
-- through, and which attachments are recorded.
use theatre.Prelude.{
  ◌≡◌, ◌⊎◌, refl, ap, subst, sym, ℕ, String, Bool, true, false, Option, none, some, List, [], ◌∷◌,
  Result, ok, err, lookup, inl, inr,
}
use theatre.Kubernetes.Workload.{Pod}
use theatre.Console.{Console, dereference}
use theatre.Console.Template.{ConsoleTemplate, ValidationError, validate}
use theatre.Recorder.{Recorder, Counters, event_attach, console_attach}
use theatre.Recorder.Counting.{IsCounted, lifecycle_events-IsCounted}
use theatre.Prelude.Exec.{lift, ◌>>=◌}
use theatre.Webhooks.{
  allowed, patched, authenticated, handle_console, validated, handle_template, AttachRequest,
  Reader, observe, with_console, with_label, with_pod, with_options, handle_attach,
}

authenticated-patched :
    (copy after : Console) (r : Result (Unit {0}))
    → authenticated copy r ≡ patched after
    → copy ≡ after
unfolding authenticated
authenticated-patched copy after (ok _) h = cc h
authenticated-patched copy after (err e) h = cc

-- A console that the authenticator changes is the one of the request with the request's user as its
-- user, whatever user it asked for, and with nothing else changed.
pub handle_console-patched :
    (decoded : Result Console) (user : String) (encodes : Console → Result (Unit {0}))
    (after : Console)
    → handle_console decoded user encodes ≡ patched after
    → (csl : Console) × (decoded ≡ ok csl)
      × (after.spec.user ≡ user)
      × (record after { spec = record after.spec { user = csl.spec.user } } ≡ csl)
unfolding handle_console
handle_console-patched (err e) user encodes after h = cc
handle_console-patched (ok csl) user encodes after h =
    let same =
      authenticated-patched (record csl { spec = record csl.spec { user = user } }) after _ h in
    let back : Console → Console =
      λ c. record c { spec = record c.spec { user = csl.spec.user } } in
    (csl, refl, ap (λ c. c.spec.user) (sym same), ap back (sym same))

validated-allowed :
    (errors : List ValidationError) (m : String) → validated errors ≡ allowed m → errors ≡ []
unfolding validated
validated-allowed [] m h = refl
validated-allowed (e ∷ errors) m h = cc

-- A template that is let through was decoded and has no validation error; the webhook never lets
-- one with an error through.
pub handle_template-allowed :
    (decoded : Result ConsoleTemplate) (m : String)
    → handle_template decoded ≡ allowed m
    → (template : ConsoleTemplate) × (decoded ≡ ok template) × (validate template ≡ [])
unfolding handle_template
handle_template-allowed (ok template) m h =
    (template, refl, validated-allowed (validate template) m h)
handle_template-allowed (err e) m h = cc

module _ {S : Type 0} (k : Reader S) (l : Recorder S) (now : ℕ) (req : AttachRequest) (c : Counters)
    (s : S) where
  -- The attachment of the request's user to a container was published and counted, or its failure
  -- was.
  abbrev pub IsObserved : Console → Counters × S → Type 0
  IsObserved csl after =
      (answer : Result (Unit {0})) × IsCounted l "console_attach" event_attach csl c s
        (answer, after)

  -- What letting a request through says of a console: it was found under the label of the pod, and the
  -- attachment was observed unless the request is a dry run.
  pub record IsLetThrough (pod : Pod) (after : Counters × S) : Type 0 where
    pub name : String
    pub console : Console
    pub is_labelled : lookup "console-name" pod.metadata.labels ≡ some name
    pub is_found : k.get_console (record { namespace = req.namespace; name = name }) s ≡ ok console
    pub is_observed :
        ((req.dry_run ≡ some true) × (after ≡ (c, s)))
        ⊎ ((req.dry_run ≡ some false) × IsObserved console after)

  observe-dry :
      (container m : String) (csl : Console) (after : Counters × S)
      → observe k l now req container csl true (c, s) ≡ (ok (allowed m), after)
      → after ≡ (c, s)
  unfolding observe
  observe-dry container m csl after h = ap (λ p. p.1) (sym h)

  observe-IsObserved :
      (container m : String) (csl : Console) (after : Counters × S)
      → observe k l now req container csl false (c, s) ≡ (ok (allowed m), after)
      → IsObserved csl after
  unfolding observe
  observe-IsObserved container m csl after h =
      let (_, _, _, counted, _) =
        lifecycle_events-IsCounted l csl now c s none req.username "" container false none in
      let same : (console_attach l csl req.username container now (c, s)).1 ≡ after =
        ap (λ p. p.1) h in
      (
        (console_attach l csl req.username container now (c, s)).0,
        subst
            (λ x.
              IsCounted l "console_attach" event_attach csl c s
                ((console_attach l csl req.username container now (c, s)).0, x))
            same counted,
      )

  observed :
      (container m : String) (csl : Console) (dry_run : Option Bool) (after : Counters × S)
      → ◌>>=◌ {S = Counters × S}
          (lift (dereference dry_run))
          (observe k l now req container csl)
          (c, s)
        ≡ (ok (allowed m), after)
      → ((dry_run ≡ some true) × (after ≡ (c, s))) ⊎ ((dry_run ≡ some false) × IsObserved csl after)
  observed container m csl none after h = cc
  observed container m csl (some true) after h = inl (refl, observe-dry container m csl after h)
  observed container m csl (some false) after h =
      inr (refl, observe-IsObserved container m csl after h)

  with_console-allowed :
      (container m name : String) (pod : Pod) (after : Counters × S) (found : Result Console)
      → lookup "console-name" pod.metadata.labels ≡ some name
      → k.get_console (record { namespace = req.namespace; name = name }) s ≡ found
      → with_console k l now req container found (c, s) ≡ (ok (allowed m), after)
      → IsLetThrough pod after
  unfolding with_console
  with_console-allowed container m name pod after (ok csl) e f h = record {
    name = name;
    console = csl;
    is_labelled = e;
    is_found = f;
    is_observed = observed container m csl req.dry_run after h;
  }
  with_console-allowed container m name pod after (err x) e f h = cc

  with_label-allowed :
      (container m : String) (pod : Pod) (after : Counters × S) (label : Option String)
      → lookup "console-name" pod.metadata.labels ≡ label
      → with_label k l now req container label (c, s) ≡ (ok (allowed m), after)
      → ((label ≡ none) × (after ≡ (c, s))) ⊎ IsLetThrough pod after
  unfolding with_label
  with_label-allowed container m pod after none e h = inl (refl, ap (λ p. p.1) (sym h))
  with_label-allowed container m pod after (some name) e h = inr (
      with_console-allowed container m name pod after
        (k.get_console (record { namespace = req.namespace; name = name }) s) e refl h)

  with_pod-allowed :
      (container m : String) (after : Counters × S) (found : Result Pod)
      → with_pod k l now req container found (c, s) ≡ (ok (allowed m), after)
      → (pod : Pod) × (found ≡ ok pod)
        × (((lookup "console-name" pod.metadata.labels ≡ none) × (after ≡ (c, s)))
            ⊎ IsLetThrough pod after)
  unfolding with_pod
  with_pod-allowed container m after (ok pod) h = (
    pod,
    refl,
    with_label-allowed container m pod after (lookup "console-name" pod.metadata.labels) refl h,
  )
  with_pod-allowed container m after (err x) h = cc

  with_options-allowed :
      (m : String) (after : Counters × S) (options : Result String)
      → with_options k l now req options (c, s) ≡ (ok (allowed m), after)
      → (pod : Pod) × (k.get_pod (record { namespace = req.namespace; name = req.name }) s ≡ ok pod)
        × (((lookup "console-name" pod.metadata.labels ≡ none) × (after ≡ (c, s)))
            ⊎ IsLetThrough pod after)
  unfolding with_options
  with_options-allowed m after (ok container) h =
      with_pod-allowed container m after
        (k.get_pod (record { namespace = req.namespace; name = req.name }) s) h
  with_options-allowed m after (err x) h = cc

-- When the webhook lets an attachment through, its pod was found. Either the pod has no console's
-- label, and nothing is published; or the console of the label was found, and unless the request is
-- a dry run one attach event of that console was published, or failed to be, and was counted.
pub handle_attach-allowed :
    {S : Type 0} (k : Reader S) (l : Recorder S) (now : ℕ) (req : AttachRequest) (c : Counters)
    (s : S) (m : String) (after : Counters × S)
    → handle_attach k l now req (c, s) ≡ (ok (allowed m), after)
    → (pod : Pod) × (k.get_pod (record { namespace = req.namespace; name = req.name }) s ≡ ok pod)
      × (((lookup "console-name" pod.metadata.labels ≡ none) × (after ≡ (c, s)))
          ⊎ IsLetThrough k l now req c s pod after)
unfolding handle_attach
handle_attach-allowed k l now req c s m after h =
    with_options-allowed k l now req c s m after req.container h
