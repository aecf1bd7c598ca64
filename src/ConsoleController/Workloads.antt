-- ===== src/ConsoleController/Workloads.antt =====
-- console_controller.go: the cluster that the reconciler works on, the console's own object, and
-- `abort`.
use theatre.Prelude.{ℕ, String, Bool, Option, none, some, List, [], ◌∷◌, Result, ok, err, Failure}
use theatre.Prelude.Results.{wrap}
use theatre.Prelude.Exec.{Exec, pure, wrapping, ◌>>=◌}
use theatre.Kubernetes.{NamespacedName, Client}
use theatre.Kubernetes.Workload.{Job, Pod}
use theatre.Console.{Console}
use theatre.Console.Template.{ConsoleTemplate, ConsoleAuthorisationRule}
use theatre.Recutil.{create_or_update}
use theatre.ConsoleController.Access.{Cluster}
use theatre.ConsoleController.Diffs.{console_diff}
use theatre.ConsoleController.Diffs.Laws.{console_name}

-- The cluster as the reconciler needs it.
pub record Workloads (S : Type 0) : Type 0 where
  pub access : Cluster S
  pub templates : NamespacedName → S → Result ConsoleTemplate
  pub consoles : Client S Console
  pub jobs : Client S Job
  -- The pods of a namespace with the label of a job.
  pub list_pods : String → String → S → Result (List Pod)
  pub delete_pod : Pod → Exec S (Unit {0})
  pub set_template_controller : ConsoleTemplate → Console → Result Console
  -- The lifecycle recorder, whose errors are only logged.
  pub console_request : Console → Option ConsoleAuthorisationRule → Exec S (Unit {0})
  pub console_start : Console → String → Exec S (Unit {0})
  pub console_terminate : Console → Bool → Option Pod → Exec S (Unit {0})

-- `ctrl.Result`: no requeue, after a time, or at a time by `time.Until`.
pub data Requeue : Type 0 where
  never : Requeue
  after_seconds : ℕ → Requeue
  at : ℕ → Requeue

module _ {S : Type 0} (k : Workloads S) where
  -- `createOrUpdate` for the console itself.
  unfoldable pub apply_console : Console → Exec S Console
  apply_console csl = do
    (_, stored) ←
        wrapping "CreateOrUpdate failed" (create_or_update k.consoles console_name console_diff csl)
    pure stored

  -- The loop over the pods, which goes on after an error and keeps the last one.
  later_error : Option Failure → Result (Unit {0}) → Option Failure
  later_error kept (ok _) = kept
  later_error kept (err e) = some e

  unfoldable pub delete_pods : List Pod → Option Failure → S → Option Failure × S
  unfolding later_error
  delete_pods [] kept s = (kept, s)
  delete_pods (pod ∷ pods) kept s =
      let (answer, s') = k.delete_pod pod s in delete_pods pods (later_error kept answer) s'

  unfoldable pub unless_failed : Option Failure × S → Result (Unit {0}) × S
  unless_failed (none, s) = (ok tt, s)
  unless_failed (some e, s) = (err (wrap "failed to delete pod(s)" e), s)

  -- `abort`, but for the recorder's call at its end, which follows where it is called. The status
  -- that the source computes is not the one that it writes.
  unfoldable pub abort : Console → Job → List Pod → Exec S Console
  unfolding delete_pods unless_failed
  abort csl job pods = do
    _ ← wrapping "failed to delete job" (k.jobs.delete job)
    _ ← (λ s. unless_failed (delete_pods pods none s))
    apply_console csl
