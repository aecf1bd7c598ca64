-- ===== src/ConsoleController/Job/Terminal.antt =====
-- console_controller.go: the first container of a job's pod, which is the one that is attached to.
use theatre.Prelude.{
  ◌+◌, if◌then◌else◌, ◌≡◌, refl, ◌∙◌, String, Bool, true, false, List, [], ◌∷◌, ◌++◌,
}
use theatre.Kubernetes.{NamespacedName}
use theatre.Kubernetes.Workload.{Container, PodTemplate}
use theatre.Console.{Console}
use theatre.Console.Template.{ConsoleTemplate}
use theatre.ConsoleController.Job.{
  JobOptions, build_job, pod_template, configure_first, with_terminal, override_command,
  record_sessions, record_session, add_session_recording_to_pod_template, build_sidecar_container,
}

-- A first container of this name, which has a terminal if the console is interactive.
pub record StartsWith (csl : Console) (name : String) (containers : List Container) : Type 0 where
  pub first : Container
  pub rest : List Container
  pub split : containers ≡ first ∷ rest
  pub is_named : first.name ≡ name
  pub terminal : csl.spec.noninteractive ≡ false → first.tty ≡ true

override_command-name :
    (command : List String) (c : Container) → (override_command command c).name ≡ c.name
unfolding override_command
override_command-name [] c = refl
override_command-name (_ ∷ _) c = refl

with_terminal-name : (b : Bool) (c : Container) → (with_terminal b c).name ≡ c.name
unfolding with_terminal
with_terminal-name true c = refl
with_terminal-name false c = refl

with_terminal-tty : (b : Bool) (c : Container) → b ≡ false → (with_terminal b c).tty ≡ true
unfolding with_terminal
with_terminal-tty true c h = cc h
with_terminal-tty false c h = refl

configure_first-StartsWith :
    (csl : Console) (c : Container) (cs : List Container)
    → StartsWith csl c.name (configure_first csl (c ∷ cs))
unfolding configure_first
configure_first-StartsWith csl c cs =
    let overridden = override_command csl.spec.command c in
    record {
      first = with_terminal csl.spec.noninteractive overridden;
      rest = cs;
      split = refl;
      is_named =
          with_terminal-name csl.spec.noninteractive overridden
          ∙ override_command-name csl.spec.command c;
      terminal = with_terminal-tty csl.spec.noninteractive overridden;
    }

recorded-StartsWith :
    (r : JobOptions) (csl : Console) (name console_id : String) (t : PodTemplate)
    → StartsWith csl name t.spec.containers
    → StartsWith csl name (add_session_recording_to_pod_template r t console_id).spec.containers
unfolding add_session_recording_to_pod_template record_sessions record_session
recorded-StartsWith r csl name console_id t start = record {
  first = record_session r 0 start.first;
  rest = record_sessions r (0 + 1) start.rest ++ build_sidecar_container r console_id ∷ [];
  split = rw start.split refl;
  is_named = start.is_named;
  terminal = start.terminal;
}

either-StartsWith :
    (csl : Console) (name : String) (b : Bool) (t u : PodTemplate)
    → StartsWith csl name t.spec.containers
    → StartsWith csl name u.spec.containers
    → StartsWith csl name (if b then t else u).spec.containers
either-StartsWith csl name true t u ht hu = ht
either-StartsWith csl name false t u ht hu = hu

-- Recorded or not, the pod of a console's job starts with the container that its template starts
-- with, which has a terminal if the console is interactive.
pub build_job-StartsWith :
    (r : JobOptions) (n : NamespacedName) (csl : Console) (tpl : ConsoleTemplate) (c : Container)
    (cs : List Container)
    → tpl.spec.template.spec.containers ≡ c ∷ cs
    → StartsWith csl c.name (build_job r n csl tpl).spec.template.spec.containers
unfolding build_job pod_template
build_job-StartsWith r n csl tpl c cs e =
    let plain : StartsWith csl c.name (pod_template csl tpl).spec.containers =
      unfold pod_template in rw e (configure_first-StartsWith csl c cs) in
    either-StartsWith csl c.name r.enable_session_recording
      (add_session_recording_to_pod_template r (pod_template csl tpl) (r.build_id csl))
      (pod_template csl tpl)
      (recorded-StartsWith r csl c.name (r.build_id csl) (pod_template csl tpl) plain) plain
