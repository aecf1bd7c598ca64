-- ===== src/Console/Lifetime.antt =====
-- helpers.go: when a console can be garbage collected, and that working it out does not panic.
use theatre.Prelude.{
  ◌∙◌, sym, ℕ, ◌+◌, ◌*◌, ◌<◌, ◌≡◌, ◌≢◌, refl, ◌↔◌, ◌⊎◌, inl, inr, Bool, true, false, Option, none,
  some, ok, ltb, arith,
}
use theatre.Console.{
  Phase, creating, pending_authorisation, pending, running, stopped, destroyed, ConsoleStatus,
  Console, second, get_gc_time, eligible_for_gc, ttl_after_finished, ttl_before_running,
  finished_at, is_pre_running, is_post_running, is_creating, is_pending_authorisation, is_pending,
  is_stopped, is_destroyed, phase_is,
}

-- A console beyond the creation of its job has an expiry time.
abbrev pub IsTimed : ConsoleStatus → Type 0
IsTimed status =
    (status.phase ≡ creating)
    ⊎ ((status.phase ≡ pending_authorisation) ⊎ ((t : ℕ) × (status.expiry_time ≡ some t)))

-- The lifetimes that `setConsoleTTLs` sets.
pub record HasLifetimes (c : Console) (before after : ℕ) : Type 0 where
  pub before_running : c.spec.ttl_seconds_before_running ≡ some before
  pub after_finished : c.spec.ttl_seconds_after_finished ≡ some after

-- The time at which a console may be collected, in words: it has not run within its lifetime from
-- its creation, or it has ended and its lifetime from then is over.
pub data IsDue (c : Console) (before after : ℕ) : ℕ → Type 0 where
  not_started :
      {t : ℕ}
      → (c.status.phase ≡ creating)
        ⊎ ((c.status.phase ≡ pending_authorisation) ⊎ (c.status.phase ≡ pending))
      → t ≡ c.metadata.creation_timestamp + before * second
      → IsDue c before after t
  completed :
      {t at : ℕ}
      → (c.status.phase ≡ stopped) ⊎ (c.status.phase ≡ destroyed)
      → c.status.completion_time ≡ some at
      → t ≡ at + after * second
      → IsDue c before after t
  never_completed :
      {t at : ℕ}
      → (c.status.phase ≡ stopped) ⊎ (c.status.phase ≡ destroyed)
      → c.status.completion_time ≡ none
      → c.status.expiry_time ≡ some at
      → t ≡ at + after * second
      → IsDue c before after t

module _ (c : Console) (before after : ℕ) (set : HasLifetimes c before after)
    (timed : IsTimed c.status) where
  -- For a console with its lifetimes set, and with an expiry time once it has a job, `GetGCTime`
  -- does not panic: it has no time while the console runs, and else the time that is due.
  pub get_gc_time-IsDue :
      ((c.status.phase ≡ running) × (get_gc_time c ≡ ok none))
      ⊎ ((t : ℕ) × (get_gc_time c ≡ ok (some t)) × IsDue c before after t)
  unfolding get_gc_time ttl_after_finished ttl_before_running finished_at is_pre_running
      is_post_running is_creating is_pending_authorisation is_pending is_stopped is_destroyed
      phase_is
  get_gc_time-IsDue = by_phase c.status.phase refl
    where
      by_end :
          (at : Option ℕ)
          → c.status.completion_time ≡ at
          → (expiry : Option ℕ) → c.status.expiry_time ≡ expiry
          → (c.status.phase ≡ stopped) ⊎ (c.status.phase ≡ destroyed)
          → ((c.status.phase ≡ running) × (get_gc_time c ≡ ok none))
            ⊎ ((t : ℕ) × (get_gc_time c ≡ ok (some t)) × IsDue c before after t)
      by_end (some at) e _ _ p = inr (at + after * second, ground arith, completed p e refl)
      by_end none e (some at) e2 p =
          inr (at + after * second, ground arith, never_completed p e e2 refl)
      by_end none e none e2 (inl p) = absurd (ground arith)
      by_end none e none e2 (inr p) = absurd (ground arith)

      by_phase :
          (p : Phase)
          → c.status.phase ≡ p
          → ((c.status.phase ≡ running) × (get_gc_time c ≡ ok none))
            ⊎ ((t : ℕ) × (get_gc_time c ≡ ok (some t)) × IsDue c before after t)
      by_phase creating e =
          inr (
            c.metadata.creation_timestamp + before * second,
            ground arith,
            not_started (inl e) refl,
          )
      by_phase pending_authorisation e = inr (
        c.metadata.creation_timestamp + before * second,
        ground arith,
        not_started (inr (inl e)) refl,
      )
      by_phase pending e = inr (
        c.metadata.creation_timestamp + before * second,
        ground arith,
        not_started (inr (inr e)) refl,
      )
      by_phase running e = inl (e, ground arith)
      by_phase stopped e = by_end c.status.completion_time refl c.status.expiry_time refl (inl e)
      by_phase destroyed e = by_end c.status.completion_time refl c.status.expiry_time refl (inr e)

-- A console has one due time.
IsDue-unique :
    {c : Console} {before after s t : ℕ} → IsDue c before after s → IsDue c before after t → s ≡ t
IsDue-unique (not_started p e) (not_started q f) = e ∙ sym f
IsDue-unique (not_started p e) (completed q f g) = ground arith
IsDue-unique (not_started p e) (never_completed q f g h) = ground arith
IsDue-unique (completed p e f) (not_started q g) = ground arith
IsDue-unique (completed p e f) (completed q g h) = ground arith
IsDue-unique (completed p e f) (never_completed q g h i) = ground arith
IsDue-unique (never_completed p e f g) (not_started q h) = ground arith
IsDue-unique (never_completed p e f g) (completed q h i) = ground arith
IsDue-unique (never_completed p e f g) (never_completed q h i j) = ground arith

-- A running console is never due.
IsDue-running :
    {c : Console} {before after t : ℕ} → IsDue c before after t → c.status.phase ≢ running
IsDue-running (not_started p e) r = ground arith
IsDue-running (completed p e f) r = ground arith
IsDue-running (never_completed p e f g) r = ground arith

-- Under the same conditions `EligibleForGC` does not panic, and it is true exactly when the due
-- time of the console has passed, so never while the console runs.
pub eligible_for_gc-IsDue :
    (c : Console) (before after : ℕ)
    → HasLifetimes c before after
    → IsTimed c.status
    → (now : ℕ)
    → (b : Bool) × (eligible_for_gc c now ≡ ok b)
      × ((b ≡ true) ↔ ((t : ℕ) × IsDue c before after t × (t < now)))
unfolding eligible_for_gc
eligible_for_gc-IsDue c before after set timed now =
    elim (get_gc_time-IsDue c before after set timed) [
      | inl (p, e) ↦
          (false, rw e refl, (λ h. ground arith, λ (t, due, l). elim (IsDue-running due p) [ ]))
      | inr (t, e, due) ↦ (
        ltb t now,
        rw e refl,
        (
          λ h. (t, due, ground arith),
          λ (s, due2, l). let same = IsDue-unique due due2 in ground arith,
        ),
      )
    ]
