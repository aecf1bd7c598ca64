-- ===== src/ConsoleController/Status/Phases.antt =====
-- console_controller.go: the phase and the expiry time that a reconciliation writes.
use theatre.Prelude.{
  ◌+◌, ◌*◌, ℕ, Option-cases, ◌≡◌, refl, ◌⊎◌, inl, inr, false, Option, none, some, arith,
}
use theatre.Kubernetes.Workload.{Pod, Job}
use theatre.Console.{
  second, ConsoleStatus, Console, is_pending_job, is_creating, is_pending_authorisation, phase_is,
}
use theatre.Console.Lifetime.{IsTimed}
use theatre.ConsoleController.Status.{
  StatusContext, calculate_phase, calculate_status, with_job, with_pod,
}

-- The controller looks for a job only in the phases before one, so that a console is without a job
-- and authorised only in a later phase.
abbrev pub IsPlausible : Console → StatusContext → Type 0
IsPlausible csl ctx =
    (ctx.is_authorised ≡ false)
    ⊎ (((job : Job) × (ctx.job ≡ some job)) ⊎ (is_pending_job csl ≡ false))

expiry-with_pod :
    (pod : Option Pod) (s : ConsoleStatus) → (with_pod pod s).expiry_time ≡ s.expiry_time
unfolding with_pod
expiry-with_pod none s = refl
expiry-with_pod (some _) s = refl

still_timed :
    (csl : Console)
    → is_pending_job csl ≡ false
    → IsTimed csl.status
    → (t : ℕ) × (csl.status.expiry_time ≡ some t)
unfolding is_pending_job is_creating is_pending_authorisation phase_is
still_timed csl h (inl e) = absurd (ground arith)
still_timed csl h (inr (inl e)) = absurd (ground arith)
still_timed csl h (inr (inr timed)) = timed

-- A reconciliation keeps it that a console with a job, or past one, has an expiry time, provided that
-- an authorised console without a job is in a phase after the job's creation.
pub calculate_status-IsTimed :
    (csl : Console) (ctx : StatusContext)
    → IsTimed csl.status
    → IsPlausible csl ctx
    → IsTimed (calculate_status csl ctx)
unfolding calculate_status calculate_phase with_job
calculate_status-IsTimed csl ctx timed plausible = elim (Option-cases ctx.job) [
  | inr (job, e) ↦ inr (
      inr (
        job.metadata.creation_timestamp + second * csl.spec.timeout_seconds,
        ground (arith, expiry-with_pod ctx.pod (with_job csl ctx.job csl.status)),
      ))
  | inl e ↦ elim plausible [
    | inl refused ↦ inr (inl (ground arith))
    | inr (inl (job, e2)) ↦ absurd (ground arith)
    | inr (inr past) ↦
        let (t, h) = still_timed csl past timed in
        inr (inr (t, ground (arith, h, expiry-with_pod ctx.pod csl.status)))
  ]
]
