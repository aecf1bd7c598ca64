-- ===== src/Recutil/Resolving.antt =====
-- pkg/recutil/reconcile.go: what `ResolveAndReconcile` answers, logs and counts, on each branch.
use theatre.Prelude.{
  ℕ, ◌≡◌, ◌≢◌, Bool, true, false, Option, none, some, Result, ok, err, Failure, List, [], ◌∷◌, ◌++◌,
  ◌⊎◌, ◌+◌, if◌then◌else◌,
}
use theatre.Prelude.Results.{api, not_found, cause, is_conflict}
use theatre.Prelude.Exec.{Exec}
use theatre.Kubernetes.{NamespacedName, Client}
use theatre.Recutil.{
  Frame, ReconcileEvent, request_start, start, complete, failed, log, request_logger,
}

-- The entry that a request ends with.
abbrev pub ending : {A : Type 0} → Result A → ReconcileEvent
ending (ok a) = complete
ending (err e) = failed e

abbrev is_start : ReconcileEvent → Bool
is_start start = true
is_start _ = false

-- Whether the reconciliation of an object began.
unfoldable pub started : List (ReconcileEvent × Bool) → Bool
started [] = false
started ((e, _) ∷ events) = if is_start e then true else started events

-- How many of an entry's errors are lasting: it has one, and this is no conflict.
abbrev lasting : ReconcileEvent → ℕ
lasting (failed e) = if is_conflict (cause e) then 0 else 1
lasting _ = 0

-- The entries of a log that tell of a lasting error.
unfoldable pub lasting_errors : List (ReconcileEvent × Bool) → ℕ
lasting_errors [] = 0
lasting_errors ((e, _) ∷ events) = lasting e + lasting_errors events

module _ {S Obj A : Type 0} (c : Client S Obj) (deletion_timestamp : Obj → Option ℕ) (nothing : A)
    (inner : NamespacedName → Obj → Exec S A) (request : NamespacedName) (f : Frame S) where
  -- What becomes of a request: an object that is there and is not being deleted is handed to the
  -- inner function; one that is gone or is being deleted is left alone, with success; and any other
  -- error of the read is answered.
  abbrev pub IsHandled : Result A × S → Type 0
  IsHandled outcome =
      ((o : Obj) × (c.get request f.state ≡ ok o)
        × (deletion_timestamp o ≡ none)
        × (outcome ≡ inner request o f.state))
      ⊎ ((((c.get request f.state ≡ err (api not_found))
              ⊎ ((o : Obj) × (t : ℕ) × (c.get request f.state ≡ ok o)
                  × (deletion_timestamp o ≡ some t)))
            × (outcome ≡ (ok nothing, f.state)))
          ⊎ ((e : Failure) × (c.get request f.state ≡ err e)
              × (e ≢ api not_found)
              × (outcome ≡ (err e, f.state))))

  -- What a request leaves in the log, after what was there: entries that tell of no lasting error, and
  -- one last entry, of success or with the error that is answered, which is recorded on the object
  -- when its reconciliation began. The counter grows by the lasting errors among them.
  abbrev pub IsReported : Result A × Frame S → Type 0
  IsReported after =
      (before : List (ReconcileEvent × Bool)) × (after.1.events
        ≡ f.events ++ (before ++ (ending after.0, started before) ∷ []))
      × (lasting_errors before ≡ 0)
      × (after.1.errors_total
          ≡ f.errors_total + lasting_errors (before ++ (ending after.0, started before) ∷ []))

  abbrev begun : Frame S
  begun = log request_start (request_logger f)

  abbrev pub IsServed : Result A × Frame S → Type 0
  IsServed after = IsHandled (after.0, after.1.state) × IsReported after
