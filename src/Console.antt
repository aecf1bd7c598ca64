-- ===== src/Console.antt =====
-- api/workloads/v1alpha1: the Console resource, its phases and its lifetime (console_types.go,
-- console_phases.go and the methods of Console in helpers.go). Times and durations are in
-- nanoseconds; the API server's bounds keep every sum far below the 64 bits of `time.Duration`.
pub mod Lifetime
pub mod Template
use theatre.Prelude.{
  ℕ, ◌+◌, ◌*◌, String, Bool, true, false, ◌||◌, Option, none, some, List, Result, ok, err, ltb,
  if◌then◌else◌,
}
use theatre.Prelude.Results.{panic, ◌>>=◌}
use theatre.Kubernetes.{ObjectMeta, Subject}

-- `ConsolePhase`; `creating` is the empty text of a console with no status yet.
pub data Phase : Type 0 where
  creating pending_authorisation pending running stopped destroyed : Phase

pub record ConsoleSpec : Type 0 where
  pub user : String
  pub reason : String
  pub timeout_seconds : ℕ
  pub console_template_ref : String
  pub ttl_seconds_before_running : Option ℕ
  pub ttl_seconds_after_finished : Option ℕ
  pub command : List String
  pub noninteractive : Bool

pub record ConsoleStatus : Type 0 where
  pub pod_name : String
  pub expiry_time : Option ℕ
  pub completion_time : Option ℕ
  pub phase : Phase

pub record Console : Type 0 where
  pub metadata : ObjectMeta
  pub spec : ConsoleSpec
  pub status : ConsoleStatus

-- Equality of phases, as `==` on their texts.
unfoldable pub phase_is : Phase → Phase → Bool
phase_is creating creating = true
phase_is pending_authorisation pending_authorisation = true
phase_is pending pending = true
phase_is running running = true
phase_is stopped stopped = true
phase_is destroyed destroyed = true
phase_is _ _ = false

module _ (c : Console) where
  unfoldable pub is_creating : Bool
  unfolding phase_is
  is_creating = phase_is c.status.phase creating

  unfoldable pub is_pending_authorisation : Bool
  unfolding phase_is
  is_pending_authorisation = phase_is c.status.phase pending_authorisation

  unfoldable pub is_pending_job : Bool
  unfolding is_creating is_pending_authorisation
  is_pending_job = is_creating || is_pending_authorisation

  unfoldable pub is_pending : Bool
  unfolding phase_is
  is_pending = phase_is c.status.phase pending

  unfoldable pub is_running : Bool
  unfolding phase_is
  is_running = phase_is c.status.phase running

  unfoldable pub is_stopped : Bool
  unfolding phase_is
  is_stopped = phase_is c.status.phase stopped

  unfoldable pub is_destroyed : Bool
  unfolding phase_is
  is_destroyed = phase_is c.status.phase destroyed

  unfoldable pub is_pre_running : Bool
  unfolding is_creating is_pending_authorisation is_pending
  is_pre_running = is_creating || is_pending_authorisation || is_pending

  unfoldable pub is_post_running : Bool
  unfolding is_stopped is_destroyed
  is_post_running = is_stopped || is_destroyed

abbrev pub second : ℕ
second = 1000000000

-- `*p`, which panics on a nil pointer.
abbrev pub dereference : {A : Type 0} → Option A → Result A
dereference none = err (panic "invalid memory address or nil pointer dereference")
dereference (some a) = ok a

module _ (c : Console) where
  -- `TTLSecondsBeforeRunning` and `TTLSecondsAfterFinished`
  unfoldable pub ttl_before_running : Result ℕ
  ttl_before_running = do ttl ← dereference c.spec.ttl_seconds_before_running; ok (ttl * second)

  unfoldable pub ttl_after_finished : Result ℕ
  ttl_after_finished = do ttl ← dereference c.spec.ttl_seconds_after_finished; ok (ttl * second)

  -- The end of a console in a phase after running: its completion or, if it never completed, its
  -- expiry.
  unfoldable pub finished_at : Option ℕ → Result ℕ
  finished_at (some completion_time) = ok completion_time
  finished_at none = dereference c.status.expiry_time

  -- `GetGCTime`
  unfoldable pub get_gc_time : Result (Option ℕ)
  unfolding ttl_before_running ttl_after_finished finished_at is_pre_running is_post_running
  get_gc_time =
      if is_pre_running c
      then (ttl_before_running >>= λ ttl. ok (some (c.metadata.creation_timestamp + ttl)))
      else if is_post_running c
      then (finished_at c.status.completion_time >>= λ t.
          ttl_after_finished >>= λ ttl. ok (some (t + ttl)))
      else ok none

  -- `EligibleForGC`, at the time `now`
  unfoldable pub eligible_for_gc : ℕ → Result Bool
  unfolding get_gc_time
  eligible_for_gc now =
      get_gc_time >>= λ gc_time. ok (elim gc_time [ none ↦ false | some t ↦ ltb t now ])
