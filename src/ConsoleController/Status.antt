-- ===== src/ConsoleController/Status.antt =====
-- console_controller.go: the status of a console and the audit events of its changes.
pub mod Phases
pub mod Events
use theatre.Prelude.{
  ℕ, ◌+◌, ◌*◌, ◌-◌, String, Bool, true, false, not, ◌&&◌, ◌||◌, Option, none, some, List, [], ◌∷◌,
  ◌++◌, Result, ok, err, if◌then◌else◌,
}
use theatre.Prelude.Results.{◌>>=◌, ◌>>◌}
use theatre.Kubernetes.Workload.{Pod, Job, JobStatus, ConditionType, complete, failed, PodPhase}
use theatre.Console.{
  Phase, pending_authorisation, pending, running, stopped, destroyed, ConsoleStatus, Console,
  second, dereference, phase_is, is_creating, is_pending_authorisation, is_pending, is_running,
  is_stopped, is_destroyed, eligible_for_gc,
}
use theatre.Console.Template.{ConsoleAuthorisationRule}
use theatre.ConsoleAuthorisation.{ConsoleAuthorisation}

-- `consoleStatusContext`
pub record StatusContext : Type 0 where
  pub command : List String
  pub is_authorised : Bool
  pub authorisation : Option ConsoleAuthorisation
  pub authorisation_rule : Option ConsoleAuthorisationRule
  pub pod : Option Pod
  pub job : Option Job

-- The loop over the conditions of the job.
has_ended : List ConditionType → Bool
has_ended [] = false
has_ended (complete ∷ _) = true
has_ended (failed ∷ _) = true
has_ended (_ ∷ conditions) = has_ended conditions

abbrev pub pod_running : Option Pod → Bool
pod_running none = false
pod_running (some pod) = elim pod.phase [ PodPhase.running ↦ true | _ ↦ false ]

phase_of_job : Option Job → Option Pod → Phase
unfolding has_ended
phase_of_job none pod = destroyed
phase_of_job (some job) pod =
    if has_ended job.status.conditions
    then stopped
    else if pod_running pod
    then running
    else pending

-- `calculatePhase`
unfoldable pub calculate_phase : StatusContext → Phase
unfolding phase_of_job
calculate_phase ctx =
    if not ctx.is_authorised then pending_authorisation else phase_of_job ctx.job ctx.pod

-- The times that come from the job; the expiry counts from the creation of the job.
unfoldable pub with_job : Console → Option Job → ConsoleStatus → ConsoleStatus
with_job csl none status = status
with_job csl (some job) status = record status {
  expiry_time = some (job.metadata.creation_timestamp + second * csl.spec.timeout_seconds);
  completion_time = job.status.completion_time;
}

unfoldable pub with_pod : Option Pod → ConsoleStatus → ConsoleStatus
with_pod none status = status
with_pod (some pod) status = record status { pod_name = pod.metadata.name }

-- `calculateStatus`
unfoldable pub calculate_status : Console → StatusContext → ConsoleStatus
unfolding with_job with_pod calculate_phase
calculate_status csl ctx = record (with_pod ctx.pod (with_job csl ctx.job csl.status)) {
  phase = calculate_phase ctx;
}

-- The audit log entries, and the calls of the lifecycle recorder. A failing call of the recorder is
-- only logged, so it has no result here.
pub data AuditEvent : Type 0 where
  console_pending_authorisation console_authorised console_started : AuditEvent
  -- completed or expired, with the duration, which is a difference of two times
  console_ended : ℕ → ℕ → AuditEvent
  console_ended_expired : ℕ → ℕ → AuditEvent
  console_ended_unknown console_expired_unauthorised console_destroyed : AuditEvent
  -- `ConsoleTerminate` of the lifecycle recorder, with `timedOut` and the pod
  console_terminate : Bool → Option Pod → AuditEvent

abbrev pub is_some : Option ℕ → Bool
is_some none = false
is_some (some _) = true

abbrev pub emit : Bool → List AuditEvent → List AuditEvent
emit b es = if b then es else []

-- A step of the function that may panic, when its condition holds.
unfoldable pub emit_if : Bool → Result (List AuditEvent) → Result (List AuditEvent)
emit_if true es = es
emit_if false es = ok []

module _ (csl : Console) (ctx : StatusContext) where
  -- `statusCtx.Job.Status.StartTime.Time`
  start_time : Result ℕ
  start_time = do job ← dereference ctx.job; dereference job.status.start_time

  unfoldable pub ended : Result (List AuditEvent)
  unfolding start_time
  ended = do
    job ← dereference ctx.job
    completion ← dereference job.status.completion_time
    start ← start_time
    ok (console_ended completion start ∷ console_terminate false ctx.pod ∷ [])

  unfoldable pub expired : Result (List AuditEvent)
  unfolding start_time
  expired = do
    expiry ← dereference csl.status.expiry_time
    start ← start_time
    ok (console_ended_expired expiry start ∷ console_terminate true ctx.pod ∷ [])

  -- The conditions in the order of the source, for the new status.
  unfoldable pub audit_events : ConsoleStatus → ℕ → Result (List AuditEvent)
  unfolding ended expired emit_if
  audit_events new now = do
    let is_new = phase_is new.phase
    let completed = is_some new.completion_time
    let a =
        emit (is_creating csl && is_new pending_authorisation) (console_pending_authorisation ∷ [])
    let b =
        emit (is_pending_authorisation csl && not (is_new pending_authorisation))
          (console_authorised ∷ [])
    let c = emit (is_pending csl && is_new running) (console_started ∷ [])
    d ← emit_if (is_running csl && is_new stopped && completed) ended
    e ← emit_if (is_running csl && is_new stopped && not completed) expired
    let f =
        emit (not (is_running csl) && not (is_stopped csl) && is_new stopped)
          (console_ended_unknown ∷ console_terminate false ctx.pod ∷ [])
    -- `csl.PendingAuthorisation() && csl.EligibleForGC()`, whose second part is only evaluated
    -- after the first
    g ← emit_if (is_pending_authorisation csl) (
        eligible_for_gc csl now >>= λ gone.
        ok (emit gone (console_expired_unauthorised ∷ console_terminate true ctx.pod ∷ [])))
    let h = emit (not (is_destroyed csl) && is_new destroyed) (console_destroyed ∷ [])
    ok (a ++ (b ++ (c ++ (d ++ (e ++ (f ++ (g ++ h)))))))

-- `generateStatusAndAuditEvents`: the console with its new status, and the events in order.
unfoldable pub generate_status_and_audit_events :
    Console → StatusContext → ℕ → Result (Console × List AuditEvent)
unfolding audit_events calculate_status
generate_status_and_audit_events csl ctx now = do
  let new = calculate_status csl ctx
  events ← audit_events csl ctx new now
  ok (record csl { status = new }, events)
