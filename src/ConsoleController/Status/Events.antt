-- ===== src/ConsoleController/Status/Events.antt =====
-- console_controller.go: the termination events of a console, which the session recording relies on.
use theatre.Prelude.{
  ℕ, ◌+◌, ◌≡◌, refl, Bool, true, false, not, ◌&&◌, List, [], ◌∷◌, ◌++◌, arith, if◌then◌else◌,
  Result, ok, err,
}
use theatre.Prelude.Results.{◌>>=◌, >>=-eq-ok}
use theatre.Console.{
  Phase, creating, pending_authorisation, pending, running, stopped, destroyed, ConsoleStatus,
  Console, phase_is, is_creating, is_pending, is_destroyed, is_pending_authorisation, is_running,
  is_stopped, eligible_for_gc,
}
use theatre.ConsoleController.Status.{
  StatusContext, AuditEvent, console_pending_authorisation, console_authorised, console_started,
  console_ended, console_ended_expired, console_ended_unknown, console_expired_unauthorised,
  console_destroyed, console_terminate, audit_events, generate_status_and_audit_events,
  calculate_status, emit, emit_if, ended, expired, is_some,
}

-- The number of calls of `ConsoleTerminate`.
unfoldable pub terminations : List AuditEvent → ℕ
terminations [] = 0
terminations (console_terminate _ _ ∷ es) = 1 + terminations es
terminations (_ ∷ es) = terminations es

terminations-append :
    (xs ys : List AuditEvent) → terminations (xs ++ ys) ≡ terminations xs + terminations ys
unfolding terminations
terminations-append [] ys = ground arith
terminations-append (console_terminate b p ∷ xs) ys = ground (arith, terminations-append xs ys)
terminations-append (console_pending_authorisation ∷ xs) ys = terminations-append xs ys
terminations-append (console_authorised ∷ xs) ys = terminations-append xs ys
terminations-append (console_started ∷ xs) ys = terminations-append xs ys
terminations-append (console_ended _ _ ∷ xs) ys = terminations-append xs ys
terminations-append (console_ended_expired _ _ ∷ xs) ys = terminations-append xs ys
terminations-append (console_ended_unknown ∷ xs) ys = terminations-append xs ys
terminations-append (console_expired_unauthorised ∷ xs) ys = terminations-append xs ys
terminations-append (console_destroyed ∷ xs) ys = terminations-append xs ys

abbrev pub one_if : Bool → ℕ
one_if b = if b then 1 else 0

terminations-emit_if :
    (b : Bool) (m : Result (List AuditEvent)) (es : List AuditEvent)
    → ((es : List AuditEvent) → m ≡ ok es → terminations es ≡ 1)
    → emit_if b m ≡ ok es
    → terminations es ≡ one_if b
unfolding emit_if terminations
terminations-emit_if true m es one e = one es e
terminations-emit_if false m es one e = ground arith

terminations-ended :
    (csl : Console) (ctx : StatusContext) (es : List AuditEvent)
    → ended csl ctx ≡ ok es
    → terminations es ≡ 1
unfolding ended terminations
terminations-ended csl ctx es e = ground arith

terminations-expired :
    (csl : Console) (ctx : StatusContext) (es : List AuditEvent)
    → expired csl ctx ≡ ok es
    → terminations es ≡ 1
unfolding expired terminations
terminations-expired csl ctx es e = ground arith

running_or_stopped : (csl : Console) → (is_running csl && is_stopped csl) ≡ false
unfolding is_running is_stopped phase_is
running_or_stopped csl = by_phase csl.status.phase
  where
    by_phase : (p : Phase) → (phase_is p running && phase_is p stopped) ≡ false
    by_phase creating = refl
    by_phase pending_authorisation = refl
    by_phase pending = refl
    by_phase running = refl
    by_phase stopped = refl
    by_phase destroyed = refl

-- The events of the steps that may panic, between those of the other steps.
abbrev collect :
    (a b c f h : List AuditEvent) → (d e g : Result (List AuditEvent)) → Result (List AuditEvent)
collect a b c f h d e g =
    d >>= λ d. e >>= λ e. g >>= λ g. ok (a ++ (b ++ (c ++ (d ++ (e ++ (f ++ (g ++ h)))))))

terminations-join :
    (a b c d e f g h : List AuditEvent)
    → terminations (a ++ (b ++ (c ++ (d ++ (e ++ (f ++ (g ++ h)))))))
      ≡ terminations a
        + terminations b
        + terminations c
        + terminations d
        + terminations e
        + terminations f
        + terminations g
        + terminations h
terminations-join a b c d e f g h = ground (
  arith,
  terminations-append a (b ++ (c ++ (d ++ (e ++ (f ++ (g ++ h)))))),
  terminations-append b (c ++ (d ++ (e ++ (f ++ (g ++ h))))),
  terminations-append c (d ++ (e ++ (f ++ (g ++ h)))),
  terminations-append d (e ++ (f ++ (g ++ h))),
  terminations-append e (f ++ (g ++ h)),
  terminations-append f (g ++ h),
  terminations-append g h,
)

terminations-collect :
    (a b c f h : List AuditEvent) (d e g : Result (List AuditEvent)) (es : List AuditEvent)
    → collect a b c f h d e g ≡ ok es
    → (x : List AuditEvent) × (y : List AuditEvent) × (z : List AuditEvent) × (d ≡ ok x)
      × (e ≡ ok y)
      × (g ≡ ok z)
      × (terminations es
          ≡ terminations a
            + terminations b
            + terminations c
            + terminations x
            + terminations y
            + terminations f
            + terminations z
            + terminations h)
terminations-collect a b c f h (ok d) (ok e) (ok g) es eq =
    (d, e, g, refl, refl, refl, ground (arith, eq, terminations-join a b c d e f g h))
terminations-collect a b c f h (err _) e g es eq = absurd (ground arith)
terminations-collect a b c f h (ok d) (err _) g es eq = absurd (ground arith)
terminations-collect a b c f h (ok d) (ok e) (err _) es eq = absurd (ground arith)

module _ (csl : Console) (ctx : StatusContext) (now : ℕ) where
  terminations-unauthorised :
      (gone : Bool) (es : List AuditEvent)
      → eligible_for_gc csl now ≡ ok gone
      → emit_if (is_pending_authorisation csl) (
          eligible_for_gc csl now >>= λ gone.
          ok (emit gone (console_expired_unauthorised ∷ console_terminate true ctx.pod ∷ [])))
        ≡ ok es
      → terminations es ≡ one_if (is_pending_authorisation csl && gone)
  unfolding emit_if terminations
  terminations-unauthorised gone es e h = ground arith

  terminations-audit_events :
      (new : ConsoleStatus) (gone : Bool) (es : List AuditEvent)
      → eligible_for_gc csl now ≡ ok gone
      → audit_events csl ctx new now ≡ ok es
      → terminations es
        ≡ one_if (phase_is new.phase stopped && not (is_stopped csl))
          + one_if (is_pending_authorisation csl && gone)
  unfolding audit_events terminations
  terminations-audit_events new gone es due e =
      let is_new : Phase → Bool = phase_is new.phase in
      let (x, y, z, e1, e2, e3, total) =
        terminations-collect
          (emit (is_creating csl && is_new pending_authorisation)
            (console_pending_authorisation ∷ []))
          (emit (is_pending_authorisation csl && not (is_new pending_authorisation))
            (console_authorised ∷ []))
          (emit (is_pending csl && is_new running) (console_started ∷ []))
          (emit (not (is_running csl) && not (is_stopped csl) && is_new stopped)
            (console_ended_unknown ∷ console_terminate false ctx.pod ∷ []))
          (emit (not (is_destroyed csl) && is_new destroyed) (console_destroyed ∷ []))
          (emit_if (is_running csl && is_new stopped && is_some new.completion_time)
            (ended csl ctx))
          (emit_if (is_running csl && is_new stopped && not (is_some new.completion_time))
            (expired csl ctx))
          (emit_if (is_pending_authorisation csl) (
            eligible_for_gc csl now >>= λ gone.
            ok (emit gone (console_expired_unauthorised ∷ console_terminate true ctx.pod ∷ []))))
          es e in
      ground (
        arith,
        total,
        terminations-emit_if _ (ended csl ctx) x (terminations-ended csl ctx) e1,
        terminations-emit_if _ (expired csl ctx) y (terminations-expired csl ctx) e2,
        terminations-unauthorised gone z due e3,
        running_or_stopped csl,
      )

-- The events of a reconciliation call `ConsoleTerminate` once when the console becomes stopped, once
-- more when it waited for an authorisation and is due for collection, and not otherwise.
pub generate_status_and_audit_events-terminations :
    (csl : Console) (ctx : StatusContext) (now : ℕ) (gone : Bool) (updated : Console)
    (es : List AuditEvent)
    → eligible_for_gc csl now ≡ ok gone
    → generate_status_and_audit_events csl ctx now ≡ ok (updated, es)
    → terminations es
      ≡ one_if (phase_is updated.status.phase stopped && not (is_stopped csl))
        + one_if (is_pending_authorisation csl && gone)
unfolding generate_status_and_audit_events
generate_status_and_audit_events-terminations csl ctx now gone updated es due e =
    let (events, h, same) = >>=-eq-ok (audit_events csl ctx (calculate_status csl ctx) now) _ e in
    ground (
      arith,
      same,
      terminations-audit_events csl ctx now (calculate_status csl ctx) gone events due h,
    )
