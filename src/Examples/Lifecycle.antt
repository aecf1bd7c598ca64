-- ===== src/Examples/Lifecycle.antt =====
-- A console from its authorisation to its end.
use theatre.Prelude.{
  ℕ, ◌+◌, ◌<◌, ◌≤◌, ◌≡◌, refl, ◌↔◌, ◌⊎◌, inl, inr, Bool, true, false, not, ◌&&◌, none, some, List,
  [], ◌∷◌, ok,
}
use theatre.Console.{
  Console, running, stopped, phase_is, is_stopped, is_running, is_creating, is_pending,
  is_destroyed, is_pending_authorisation, get_gc_time, eligible_for_gc,
}
use theatre.Console.Lifetime.{IsTimed, HasLifetimes, IsDue, eligible_for_gc-IsDue}
use theatre.ConsoleController.Status.{
  StatusContext, AuditEvent, console_ended, console_terminate, calculate_status,
  generate_status_and_audit_events,
}
use theatre.ConsoleController.Status.Phases.{calculate_status-IsTimed}
use theatre.ConsoleController.Status.Events.{
  terminations, one_if, generate_status_and_audit_events-terminations,
}
use theatre.ConsoleController.Defaults.{set_console_timeout, set_console_ttls}
use theatre.ConsoleController.Defaults.Bounds.{set_console_timeout-le_iff, set_console_ttls_idem}
use theatre.Examples.{console_in, job, template}

abbrev live : Console
live = console_in running

set : HasLifetimes live 10 20
set = record { before_running = refl; after_finished = refl }

timed : IsTimed live.status
timed = inr (inr (5000, refl))

eligible_for_gc-IsDue_example :
    (b : Bool) × (eligible_for_gc live 99 ≡ ok b)
    × ((b ≡ true) ↔ ((t : ℕ) × IsDue live 10 20 t × (t < 99)))
eligible_for_gc-IsDue_example = eligible_for_gc-IsDue live 10 20 set timed 99

-- The job of the console has completed.
abbrev ended : StatusContext
ended = record {
  command = [];
  is_authorised = true;
  authorisation = none;
  authorisation_rule = none;
  pod = none;
  job = some job;
}

calculate_status-IsTimed_example : IsTimed (calculate_status live ended)
calculate_status-IsTimed_example = calculate_status-IsTimed live ended timed (inr (inl (job, refl)))

abbrev events : List AuditEvent
events = console_ended 3000 2000 ∷ console_terminate false none ∷ []

abbrev updated : Console
updated = record live { status = calculate_status live ended }

not_due : eligible_for_gc live 99 ≡ ok false
unfolding eligible_for_gc get_gc_time
not_due = refl

generated : generate_status_and_audit_events live ended 99 ≡ ok (updated, events)
unfolding generate_status_and_audit_events is_running is_pending_authorisation is_creating
    is_pending is_destroyed
generated = refl

generate_status_and_audit_events-terminations_example :
    terminations events
    ≡ one_if (phase_is updated.status.phase stopped && not (is_stopped live))
      + one_if (is_pending_authorisation live && false)
generate_status_and_audit_events-terminations_example =
    generate_status_and_audit_events-terminations live ended 99 false updated events not_due
      generated

set_console_timeout-le_iff_example :
    ((set_console_timeout live template).spec.timeout_seconds ≤ 3600) ↔ ((0 < 60) ⊎ (600 ≤ 3600))
set_console_timeout-le_iff_example = set_console_timeout-le_iff live template

set_console_ttls_idem_example :
    set_console_ttls (set_console_ttls live template) template ≡ set_console_ttls live template
set_console_ttls_idem_example = set_console_ttls_idem live template template
