-- ===== src/Examples/Refusing.antt =====
-- The reconciliation of a console that waits for two authorisations and has none.
use theatre.Prelude.{◌≡◌, refl, ℕ, suc, false, some, List, [], ◌∷◌, Result, ok, err}
use theatre.Prelude.Results.{api, not_found}
use theatre.Kubernetes.{Client}
use theatre.Kubernetes.Workload.{Job}
use theatre.Recutil.Keeping.{ClientKeeps}
use theatre.Console.{Console, creating}
use theatre.ConsoleAuthorisation.{is_console_authorised}
use theatre.ConsoleController.Access.{Cluster}
use theatre.ConsoleController.Defaults.{set_console_timeout, set_console_ttls, get_command}
use theatre.ConsoleController.Diffs.Laws.{job_name}
use theatre.ConsoleController.Job.{JobOptions}
use theatre.ConsoleController.Reconcile.{authorise, set_defaults, reconcile}
use theatre.ConsoleController.Reconcile.Authorised.{reconcile_unauthorised}
use theatre.ConsoleController.Reconcile.Keeping.{WorkloadsKeep}
use theatre.ConsoleController.Workloads.{Workloads}
use theatre.Console.Template.{
  has_authorisation_rules, get_authorisation_rule_for_command, validate, match_rule,
}
use theatre.ConsoleController.Access.{create_authorisation_objects, create_or_update_owned}
use theatre.ConsoleController.Diffs.{authorisation_diff, take_over}
use theatre.Recutil.{create_or_update}
use theatre.Kubernetes.{Labels-discrete}
use theatre.Prelude.{String-discrete}
use theatre.Examples.{console_in, template, migrations, authorised_by, key}
use theatre.Examples.Shelf.{shelved}

-- The number of calls that wrote, and the jobs.
abbrev World : Type 0
World = ℕ × List Job

-- A client that counts its calls, and answers the same to each question.
abbrev counting : {Obj : Type 0} → Result Obj → Client World Obj
counting answer = record {
  get = λ n s. answer;
  create = λ o (calls, jobs). (ok o, (suc calls, jobs));
  update = λ o (calls, jobs). (ok o, (suc calls, jobs));
  delete = λ o (calls, jobs). (ok tt, (suc calls, jobs));
}

abbrev jobs_of : World → List Job
jobs_of (calls, jobs) = jobs

counting-ClientKeeps : {Obj : Type 0} (answer : Result Obj) → ClientKeeps jobs_of (counting answer)
counting-ClientKeeps answer = record {
  creates = λ o. record { at = λ s. refl };
  updates = λ o. record { at = λ s. refl };
  deletes = λ o. record { at = λ s. refl };
}

abbrev access : Cluster World
access = record {
  roles = counting (err (api not_found));
  bindings = counting (err (api not_found));
  authorisations = counting (ok (authorised_by []));
  set_controller = λ csl m. ok m;
}

abbrev workloads : Workloads World
workloads = record {
  access = access;
  templates = λ n s. ok template;
  consoles = counting (err (api not_found));
  jobs = record {
    get = λ n (calls, jobs). shelved job_name n jobs;
    create = λ o (calls, jobs). (ok o, (calls, o ∷ jobs));
    update = λ o (calls, jobs). (ok o, (calls, o ∷ jobs));
    delete = λ o (calls, jobs). (ok tt, (calls, []));
  };
  list_pods = λ namespace name s. ok [];
  delete_pod = λ pod s. (ok tt, s);
  set_template_controller = λ tpl csl. ok csl;
  console_request = λ csl rule s. (ok tt, s);
  console_start = λ csl name s. (ok tt, s);
  console_terminate = λ csl timed_out pod s. (ok tt, s);
}

workloads-Keep : WorkloadsKeep jobs_of workloads
workloads-Keep = record {
  access_calls = record {
    role_calls = counting-ClientKeeps (err (api not_found));
    binding_calls = counting-ClientKeeps (err (api not_found));
    authorisation_calls = counting-ClientKeeps (ok (authorised_by []));
  };
  console_calls = counting-ClientKeeps (err (api not_found));
  requests = λ csl rule. record { at = λ s. refl };
  terminations = λ csl timed_out pod. record { at = λ s. refl };
}

abbrev options : JobOptions
options = record {
  enable_session_recording = false;
  session_sidecar_image = "";
  session_pubsub_topic_id = "";
  session_pubsub_project_id = "";
  build_id = λ csl. csl.metadata.name;
  print_number = λ n. "0";
}

abbrev fresh : Console
fresh = console_in creating

defaulted : Console
defaulted = set_console_timeout (set_console_ttls fresh template) template

defaults_set : (set_defaults workloads (key "console") fresh (0, [])).0 ≡ ok (defaulted, template)
unfolding set_defaults defaulted create_or_update
defaults_set = refl

commanded : get_command defaulted template ≡ ok ("rails" ∷ "c" ∷ [])
unfolding get_command defaulted set_console_timeout set_console_ttls
commanded = refl

asked :
    (authorise workloads
      (key "console")
      defaulted
      template
      ("rails" ∷ "c" ∷ [])
      (set_defaults workloads (key "console") fresh (0, [])).1).0
    ≡ ok (some migrations, some (authorised_by []))
unfolding set_defaults authorise defaulted has_authorisation_rules
    get_authorisation_rule_for_command validate match_rule create_authorisation_objects
    create_or_update_owned create_or_update authorisation_diff take_over set_console_timeout
    set_console_ttls Labels-discrete String-discrete
asked = refl

waiting : is_console_authorised (some migrations) (some (authorised_by [])) ≡ false
unfolding is_console_authorised
waiting = refl

reconcile_unauthorised_example :
    jobs_of (reconcile workloads options 2000 (key "console") fresh (0, [])).1 ≡ []
unfolding shelved
reconcile_unauthorised_example =
    reconcile_unauthorised jobs_of workloads (shelved job_name) options 2000 (key "console") fresh
      defaulted template ("rails" ∷ "c" ∷ []) (some migrations) (some (authorised_by [])) (0, [])
      (api not_found) workloads-Keep (λ m t. refl) refl defaults_set commanded asked waiting
