-- ===== src/ConsoleController/Reconcile.antt =====
-- console_controller.go: `Reconcile`, as an action on the cluster. The audit events are
-- part of the answer too: an error after them drops them there, where the source has logged them.
pub mod Aborting
pub mod Keeping
pub mod Authorised
use theatre.Prelude.{
  ℕ, String, ◌==◌, Bool, true, false, not, ◌&&◌, ◌||◌, Option, none, some, List, [], ◌∷◌, ◌++◌,
  Result, ok, err, Failure, if◌then◌else◌,
}
use theatre.Prelude.Results.{wrap, wrapped}
use theatre.Prelude.Exec.{Exec, pure, raise, lift, wrapping, attempt, ◌>>=◌}
use theatre.Kubernetes.{NamespacedName, ObjectMeta, Client}
use theatre.Kubernetes.Workload.{Job, Pod}
use theatre.Console.{
  Console, ConsoleStatus, Phase, pending_authorisation, pending, running, stopped, destroyed,
  second, dereference, is_pending_job, get_gc_time, eligible_for_gc,
}
use theatre.Console.Template.{
  ConsoleTemplate, ConsoleAuthorisationRule, has_authorisation_rules,
  get_authorisation_rule_for_command,
}
use theatre.ConsoleAuthorisation.{ConsoleAuthorisation, is_console_authorised}
use theatre.Recutil.{create_or_update}
use theatre.ConsoleController.Access.{
  Cluster, create_or_update_owned, create_or_update_user_rbac, create_or_update_service_rbac,
  create_authorisation_objects,
}
use theatre.ConsoleController.Defaults.{set_console_ttls, set_console_timeout, get_command}
use theatre.ConsoleController.Diffs.{console_diff, job_diff}
use theatre.ConsoleController.Diffs.Laws.{console_name, job_name}
use theatre.ConsoleController.Job.{JobOptions, build_job}
use theatre.ConsoleController.Names.{get_job_name}
use theatre.ConsoleController.Status.{
  StatusContext, AuditEvent, console_terminate, generate_status_and_audit_events,
}
use theatre.ConsoleController.Workloads.{
  Workloads, Requeue, never, after_seconds, at, apply_console, abort, delete_pods, unless_failed,
}

module _ {S : Type 0} (k : Workloads S) where
  -- The job of a console is created or brought up to date, and its start is recorded.
  unfoldable pub launch :
      JobOptions → NamespacedName → Console → ConsoleTemplate → Exec S (Option Job)
  launch options n csl tpl = do
    stored ←
        create_or_update_owned k.access k.jobs (λ j. j.metadata) (λ m j. record j { metadata = m })
          job_name job_diff csl (build_job options n csl tpl)
    _ ← attempt (if is_pending_job csl then k.console_start csl stored.metadata.name else pure tt)
    pure (some stored)

  -- After a console was found to be authorised or not, from the job that is there.
  unfoldable pub ensure_job :
      JobOptions
      → NamespacedName
      → Console
      → ConsoleTemplate
      → Bool
      → Result Job
      → Exec S (Option Job)
  unfolding launch
  ensure_job options n csl tpl authorised (err _) =
      if authorised && is_pending_job csl then launch options n csl tpl else pure none
  ensure_job options n csl tpl authorised (ok _) = launch options n csl tpl

  -- Whether the pods of the job say that a second one was launched.
  unfoldable pub has_second_pod : Console → List Pod → Bool
  has_second_pod csl [] = false
  has_second_pod csl (pod ∷ []) =
      not (csl.status.pod_name == "") && not (csl.status.pod_name == pod.metadata.name)
  has_second_pod csl (_ ∷ _ ∷ _) = true

  -- The authorisation of a console whose template has rules.
  unfoldable pub authorise :
      NamespacedName
      → Console
      → ConsoleTemplate
      → List String
      → Exec S (Option ConsoleAuthorisationRule × Option ConsoleAuthorisation)
  authorise n csl tpl command =
      if has_authorisation_rules tpl
      then (do
        rule ←
            wrapping "failed to determine authorisation rule for console command"
              (lift (get_authorisation_rule_for_command tpl command))
        _ ← create_authorisation_objects k.access csl n rule.authorisers.subjects
        authorisation ←
            wrapping "failed to retrieve console authorisation"
              (λ s. (k.access.authorisations.get n s, s))
        pure (some rule, some authorisation))
      else pure (none, none)

  -- The part of `Reconcile` before the job: the console with its owner and defaults, its command, and
  -- what its authorisation needs.
  unfoldable pub set_defaults : NamespacedName → Console → Exec S (Console × ConsoleTemplate)
  unfolding apply_console
  set_defaults n csl = do
    tpl ← wrapping "failed to retrieve console template" (λ s. (
      k.templates (record { namespace = n.namespace; name = csl.spec.console_template_ref }) s,
      s,
    ))
    owned ←
        wrapping "failed to set controller reference on console object"
          (lift (wrapped "failed to set controller reference" (k.set_template_controller tpl csl)))
    stored ← apply_console k (set_console_timeout (set_console_ttls owned tpl) tpl)
    pure (stored, tpl)

  -- The time of collection, which the source dereferences.
  gc_requeue : Console → Exec S Requeue
  gc_requeue csl = do gc_time ← lift (get_gc_time csl); t ← lift (dereference gc_time); pure (at t)

  -- The switch on the phase.
  requeue_for :
      Bool
      → NamespacedName
      → Console
      → ConsoleTemplate
      → Option ConsoleAuthorisation
      → Phase
      → Exec S Requeue
  unfolding gc_requeue
  requeue_for recording n csl tpl authorisation pending_authorisation = gc_requeue csl
  requeue_for recording n csl tpl authorisation pending = pure (after_seconds 1)
  requeue_for recording n csl tpl authorisation running = do
    _ ← create_or_update_user_rbac k.access tpl n csl authorisation
    if recording
        then (create_or_update_service_rbac k.access tpl n csl >>= λ _. pure (after_seconds 30))
        else pure (after_seconds 30)
  requeue_for recording n csl tpl authorisation stopped = gc_requeue csl
  requeue_for recording n csl tpl authorisation destroyed = gc_requeue csl
  requeue_for recording n csl tpl authorisation _ = pure never

  -- The calls of `ConsoleTerminate` among the events.
  unfoldable pub publish_terminations : Console → List AuditEvent → Exec S (Unit {0})
  publish_terminations csl [] = pure tt
  publish_terminations csl (console_terminate timed_out pod ∷ events) = do
    _ ← attempt (k.console_terminate csl timed_out pod)
    publish_terminations csl events
  publish_terminations csl (_ ∷ events) = publish_terminations csl events

  -- The end of `Reconcile`: the status, what the phase asks for, and the collection.
  unfoldable pub settle :
      Bool
      → NamespacedName
      → ConsoleTemplate
      → ℕ
      → Console
      → StatusContext
      → Exec S (Requeue × List AuditEvent)
  unfolding requeue_for publish_terminations
  settle recording n tpl now csl ctx = do
    (updated, events) ← lift (generate_status_and_audit_events csl ctx now)
    _ ← publish_terminations csl events
    stored ← apply_console k updated
    res ← requeue_for recording n stored tpl ctx.authorisation stored.status.phase
    gone ← lift (eligible_for_gc stored now)
    if gone then (k.consoles.delete stored >>= λ _. pure (never, events)) else pure (res, events)

  first_pod : List Pod → Option Pod
  first_pod [] = none
  first_pod (pod ∷ _) = some pod

  -- The pods of the job: a second one aborts the console.
  unfoldable pub observe_pods :
      Bool
      → NamespacedName
      → ConsoleTemplate
      → ℕ
      → Console
      → StatusContext
      → Option Job
      → Exec S (Requeue × List AuditEvent)
  unfolding first_pod
  observe_pods recording n tpl now csl ctx none = settle recording n tpl now csl ctx
  observe_pods recording n tpl now csl ctx (some job) = do
    pods ←
        wrapping "failed to list pods for console job"
          (λ s. (k.list_pods csl.metadata.namespace job.metadata.name s, s))
    if has_second_pod csl pods
        then (do
          _ ← wrapping "failed to abort console" (abort k csl job pods)
          _ ← attempt (k.console_terminate csl false none)
          pure (never, []))
        else settle recording n tpl now csl (record ctx { pod = first_pod pods })

  -- The part after the authorisation: the job, its pods and the status.
  unfoldable pub proceed :
      JobOptions
      → ℕ
      → NamespacedName
      → Console
      → ConsoleTemplate
      → List String
      → Option ConsoleAuthorisationRule
      → Option ConsoleAuthorisation
      → Exec S (Requeue × List AuditEvent)
  proceed options now n csl tpl command rule authorisation = do
    let authorised = is_console_authorised rule authorisation
    job ← (λ s.
        ensure_job options n csl tpl authorised
          (k.jobs.get (record { namespace = n.namespace; name = get_job_name n.name }) s) s)
    observe_pods options.enable_session_recording n tpl now csl
        (record {
          command = command;
          is_authorised = authorised;
          authorisation = authorisation;
          authorisation_rule = rule;
          pod = none;
          job = job;
        })
        job

  is_new : Console → Bool
  is_new csl = elim csl.metadata.owner_references [ [] ↦ true | _ ∷ _ ↦ false ]

  -- `Reconcile`, at the time `now`. A console without an owner is a new request.
  unfoldable pub reconcile :
      JobOptions → ℕ → NamespacedName → Console → Exec S (Requeue × List AuditEvent)
  unfolding is_new proceed
  reconcile options now n before = do
    (csl, tpl) ← set_defaults n before
    command ←
        wrapping "neither the console or template have a command to evaluate"
          (lift (get_command csl tpl))
    (rule, authorisation) ← authorise n csl tpl command
    _ ← attempt (if is_new before then k.console_request csl rule else pure tt)
    proceed options now n csl tpl command rule authorisation
