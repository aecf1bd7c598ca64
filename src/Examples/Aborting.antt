-- ===== src/Examples/Aborting.antt =====
-- The abort of a console, over a cluster that keeps consoles and nothing else.
use theatre.Prelude.{◌≡◌, refl, List, [], ◌∷◌, ok, err}
use theatre.Prelude.Results.{api, not_found}
use theatre.Kubernetes.{Client, OwnerReferences-discrete}
use theatre.Console.{Console, running}
use theatre.Recutil.{create_or_update}
use theatre.ConsoleController.Access.{Cluster}
use theatre.ConsoleController.Diffs.{
  console_diff, take_over, ConsoleSpec-discrete, ConsoleStatus-discrete,
}
use theatre.ConsoleController.Diffs.Laws.{console_name, console_content}
use theatre.ConsoleController.Workloads.{Workloads, abort, apply_console}
use theatre.ConsoleController.Reconcile.Aborting.{abort_keeps_status}
use theatre.Examples.{console_in, job, template}
use theatre.Examples.Shelf.{shelved, shelf, shelf-IsStore}

-- A client that finds nothing and accepts everything.
abbrev inert : {Obj : Type 0} → Client (List Console) Obj
inert = record {
  get = λ n s. err (api not_found);
  create = λ o s. (ok o, s);
  update = λ o s. (ok o, s);
  delete = λ o s. (ok tt, s);
}

abbrev access : Cluster (List Console)
access = record {
  roles = inert;
  bindings = inert;
  authorisations = inert;
  set_controller = λ csl m. ok m;
}

abbrev workloads : Workloads (List Console)
workloads = record {
  access = access;
  templates = λ n s. ok template;
  consoles = shelf console_name;
  jobs = inert;
  list_pods = λ namespace name s. ok [];
  delete_pod = λ pod s. (ok tt, s);
  set_template_controller = λ tpl csl. ok csl;
  console_request = λ csl rule s. (ok tt, s);
  console_start = λ csl name s. (ok tt, s);
  console_terminate = λ csl timed_out pod s. (ok tt, s);
}

abbrev live : Console
live = console_in running

aborted : abort workloads live job [] (live ∷ []) ≡ (ok live, live ∷ [])
unfolding abort create_or_update shelved console_diff take_over apply_console ConsoleStatus-discrete
    ConsoleSpec-discrete OwnerReferences-discrete
aborted = refl

abort_keeps_status_example :
    (shelved console_name (console_name live) (live ∷ []) ≡ ok live) × (live.status ≡ live.status)
abort_keeps_status_example =
    abort_keeps_status workloads (shelf-IsStore console_name console_content) live live job []
      (live ∷ []) (live ∷ []) aborted
