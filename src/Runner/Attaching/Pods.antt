-- ===== src/Runner/Attaching/Pods.antt =====
-- runner.go: which container is attached to, also in the pods of the console controller's jobs, and
-- when a followed pod counts as a success.
use theatre.Prelude.{
  ◌≡◌, refl, ap, subst, ◌∙◌, sym, String, Bool, true, false, List, [], ◌∷◌, ◌++◌, Result, ok, err,
  arith, any, Bool-cases, inl, inr,
}
use theatre.Kubernetes.{NamespacedName}
use theatre.Kubernetes.Workload.{Container, Pod}
use theatre.Console.{Console}
use theatre.Console.Template.{ConsoleTemplate}
use theatre.ConsoleController.Job.{JobOptions, build_job}
use theatre.ConsoleController.Job.Terminal.{StartsWith, build_job-StartsWith}
use theatre.Runner.{Api}
use theatre.Runner.Attaching.{
  terminal_of, container_of, with_containers, with_name, get_attachable_pod,
}

-- The container that a console is attached to: the first one, or the first with a terminal when the
-- console is interactive.
pub record IsAttachable (noninteractive : Bool) (containers : List Container) (name : String)
    : Type 0 where
  pub before : List Container
  pub container : Container
  pub after : List Container
  pub split : containers ≡ before ++ container ∷ after
  pub is_named : container.name ≡ name
  pub first : noninteractive ≡ true → before ≡ []
  pub terminal : noninteractive ≡ false → container.tty ≡ true
  pub none_before : any (λ c. c.tty) before ≡ false

terminal_of-IsAttachable :
    (containers : List Container) (name : String)
    → terminal_of containers ≡ ok name
    → IsAttachable false containers name
unfolding terminal_of
terminal_of-IsAttachable [] name h = cc
terminal_of-IsAttachable (c ∷ containers) name h = elim (Bool-cases c.tty) [
  | inl e ↦ record {
    before = [];
    container = c;
    after = containers;
    split = refl;
    is_named = ground (arith, h);
    first = λ b. cc;
    terminal = λ _. e;
    none_before = refl;
  }
  | inr e ↦
      let rest = terminal_of-IsAttachable containers name (ground (arith, h)) in
      record {
        before = c ∷ rest.before;
        container = rest.container;
        after = rest.after;
        split = ap (λ l. c ∷ l) rest.split;
        is_named = rest.is_named;
        first = λ b. cc b;
        terminal = rest.terminal;
        none_before = ground (arith, rest.none_before);
      }
]

container_of-IsAttachable :
    (noninteractive : Bool) (containers : List Container) (name : String)
    → container_of noninteractive containers ≡ ok name
    → IsAttachable noninteractive containers name
unfolding container_of
container_of-IsAttachable noninteractive [] name h = cc
container_of-IsAttachable false (c ∷ containers) name h =
    terminal_of-IsAttachable (c ∷ containers) name h
container_of-IsAttachable true (c ∷ containers) name h = record {
  before = [];
  container = c;
  after = containers;
  split = refl;
  is_named = cc h;
  first = λ _. refl;
  terminal = λ b. cc b;
  none_before = refl;
}

with_name-ok :
    (found pod : Pod) (r : Result String) (name : String)
    → with_name found r ≡ ok (pod, name)
    → (found ≡ pod) × (r ≡ ok name)
unfolding with_name
with_name-ok found pod (ok n) name h = (cc h, cc h)
with_name-ok found pod (err e) name h = cc

with_containers-ok :
    (csl : Console) (found : Result Pod) (pod : Pod) (name : String)
    → with_containers csl found ≡ ok (pod, name)
    → (found ≡ ok pod) × (container_of csl.spec.noninteractive pod.spec.containers ≡ ok name)
unfolding with_containers
with_containers-ok csl (err e) pod name h = cc
with_containers-ok csl (ok found) pod name h =
    let (same, chosen) =
      with_name-ok found pod (container_of csl.spec.noninteractive found.spec.containers) name h in
    subst
      (λ p. (ok found ≡ ok p) × (container_of csl.spec.noninteractive p.spec.containers ≡ ok name))
      same (refl, chosen)

starts_container_of :
    (csl owner : Console) (name : String) (containers : List Container)
    → csl.spec.noninteractive ≡ owner.spec.noninteractive
    → StartsWith owner name containers
    → container_of csl.spec.noninteractive containers ≡ ok name
unfolding container_of terminal_of
starts_container_of csl owner name containers same start =
    elim (Bool-cases csl.spec.noninteractive) [
      | inl e ↦ rw (start.split, e) (ap ok start.is_named)
      | inr e ↦ rw (start.split, e, start.terminal (sym same ∙ e)) (ap ok start.is_named)
    ]

module _ {S Raw : Type 0} (k : Api S Raw) where
  -- When GetAttachablePod succeeds, it answers the pod that the console's status names, and a
  -- container of that pod: the first of all, or of those with a terminal for an interactive console.
  pub get_attachable_pod-IsAttachable :
      (csl : Console) (s : S) (pod : Pod) (name : String)
      → get_attachable_pod k csl s ≡ ok (pod, name)
      → (k.get_pod (record { namespace = csl.metadata.namespace; name = csl.status.pod_name }) s
          ≡ ok pod)
        × IsAttachable csl.spec.noninteractive pod.spec.containers name
  unfolding get_attachable_pod
  get_attachable_pod-IsAttachable csl s pod name h =
      let (found, chosen) =
        with_containers-ok csl
          (k.get_pod (record { namespace = csl.metadata.namespace; name = csl.status.pod_name }) s)
          pod name h in
      (found, container_of-IsAttachable csl.spec.noninteractive pod.spec.containers name chosen)

  -- The pod of a job that the controller builds for a console can be attached to, whatever its
  -- template has besides a first container: the container that is chosen is that one, recorded or
  -- not, and interactive or not.
  pub get_attachable_pod-build_job :
      (r : JobOptions) (n : NamespacedName) (csl owner : Console) (tpl : ConsoleTemplate) (s : S)
      (pod : Pod) (c : Container) (cs : List Container)
      → tpl.spec.template.spec.containers ≡ c ∷ cs
      → csl.spec.noninteractive ≡ owner.spec.noninteractive
      → k.get_pod (record { namespace = csl.metadata.namespace; name = csl.status.pod_name }) s
        ≡ ok pod
      → pod.spec.containers ≡ (build_job r n owner tpl).spec.template.spec.containers
      → get_attachable_pod k csl s ≡ ok (pod, c.name)
  unfolding get_attachable_pod with_containers with_name
  get_attachable_pod-build_job r n csl owner tpl s pod c cs template same found spec =
      let start : StartsWith owner c.name pod.spec.containers =
        rw spec (build_job-StartsWith r n owner tpl c cs template) in
      rw (found, starts_container_of csl owner c.name pod.spec.containers same start) refl
