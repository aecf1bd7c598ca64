-- ===== src/ConsoleController/Reconcile/Aborting.antt =====
-- console_controller.go: what `abort` leaves of the console.
use theatre.Prelude.{◌≡◌, sym, ◌∙◌, ap, ok, none, List}
use theatre.Prelude.Exec.{pure, ◌>>=◌, >>=-eq-ok, wrapping-eq-ok_result, wrapping}
use theatre.Kubernetes.Workload.{Job, Pod}
use theatre.Console.{Console}
use theatre.Recutil.{create_or_update}
use theatre.Recutil.Converge.{IsStore, create_or_update_converges}
use theatre.ConsoleController.Diffs.{console_diff}
use theatre.ConsoleController.Diffs.Laws.{console_name, console_content, console_diff-IsDiff}
use theatre.ConsoleController.Workloads.{
  Workloads, abort, apply_console, delete_pods, unless_failed,
}

module _ {S : Type 0} (k : Workloads S)
    (store : IsStore k.consoles console_name console_content) where
  -- When `apply_console` succeeds the cluster holds the console with its owners, spec and status.
  apply_console-Reached :
      (csl o : Console) (s s' : S)
      → apply_console k csl s ≡ (ok o, s')
      → (k.consoles.get (console_name csl) s' ≡ ok o) × (console_content o ≡ console_content csl)
  unfolding apply_console
  apply_console-Reached csl o s s' e =
      let run =
        wrapping "CreateOrUpdate failed"
          (create_or_update k.consoles console_name console_diff csl) in
      let ((op, stored), done, last) = >>=-eq-ok run (λ (_, stored). pure stored) s e in
      let reached =
        create_or_update_converges k.consoles console_name console_content store console_diff
          console_diff-IsDiff csl op stored s (run s).1
          (wrapping-eq-ok_result "CreateOrUpdate failed"
            (create_or_update k.consoles console_name console_diff csl) s done) in
      let same : stored ≡ o = cc last in
      (
        ap (λ p. k.consoles.get (console_name csl) p.1) (sym last) ∙ reached.0 ∙ ap ok same,
        ap console_content (sym same) ∙ reached.1,
      )

  -- After an abort that succeeds the cluster's console has the status that it had before: the phase
  -- is not set to stopped.
  pub abort_keeps_status :
      (csl o : Console) (job : Job) (pods : List Pod) (s s' : S)
      → abort k csl job pods s ≡ (ok o, s')
      → (k.consoles.get (console_name csl) s' ≡ ok o) × (o.status ≡ csl.status)
  unfolding abort
  abort_keeps_status csl o job pods s s' e =
      let delete_job = wrapping "failed to delete job" (k.jobs.delete job) in
      let delete = λ (s : S). unless_failed k (delete_pods k pods none s) in
      let (_, _, e1) = >>=-eq-ok delete_job (λ _. ◌>>=◌ delete (λ _. apply_console k csl)) s e in
      let (_, _, e2) = >>=-eq-ok delete (λ _. apply_console k csl) (delete_job s).1 e1 in
      let (found, same) = apply_console-Reached csl o (delete (delete_job s).1).1 s' e2 in
      (found, ap (λ c. c.0) same)
