-- ===== src/ConsoleController/Reconcile/Keeping.antt =====
-- console_controller.go: the stages of a reconciliation that touch neither jobs nor pods.
use theatre.Prelude.{ℕ, String, Bool, Option, none, some, List, [], ◌∷◌}
use theatre.Prelude.Results.{wrapped}
use theatre.Prelude.Exec.Keeps.{
  Keeps, Keeps-read, Keeps-pure, Keeps-lift, Keeps-wrapping, Keeps-attempt, Keeps-if, Keeps-bind,
}
use theatre.Kubernetes.{NamespacedName}
use theatre.Kubernetes.Workload.{Pod}
use theatre.Recutil.Keeping.{ClientKeeps, create_or_update-Keeps}
use theatre.Console.{
  Console, Phase, creating, pending_authorisation, pending, running, stopped, destroyed,
  get_gc_time, eligible_for_gc, dereference,
}
use theatre.Console.Template.{
  ConsoleTemplate, ConsoleAuthorisationRule, has_authorisation_rules,
  get_authorisation_rule_for_command,
}
use theatre.ConsoleController.Defaults.{set_console_timeout, set_console_ttls}
use theatre.ConsoleAuthorisation.{ConsoleAuthorisation}
use theatre.ConsoleController.Access.Keeping.{
  AccessKeeps, create_or_update_user_rbac-Keeps, create_or_update_service_rbac-Keeps,
  create_authorisation_objects-Keeps,
}
use theatre.ConsoleController.Diffs.{console_diff}
use theatre.ConsoleController.Diffs.Laws.{console_name}
use theatre.ConsoleController.Status.{
  StatusContext, generate_status_and_audit_events, AuditEvent, console_pending_authorisation,
  console_authorised, console_started, console_ended, console_ended_expired, console_ended_unknown,
  console_expired_unauthorised, console_destroyed, console_terminate,
}
use theatre.ConsoleController.Workloads.{Workloads, never, at, after_seconds, apply_console}
use theatre.ConsoleController.Reconcile.{
  authorise, set_defaults, gc_requeue, requeue_for, publish_terminations, settle,
}

-- What `view` sees is touched by no call but those for jobs and pods.
pub record WorkloadsKeep {S V : Type 0} (view : S → V) (k : Workloads S) : Type 0 where
  pub access_calls : AccessKeeps view k.access
  pub console_calls : ClientKeeps view k.consoles
  pub requests :
      (csl : Console) (rule : Option ConsoleAuthorisationRule)
      → Keeps view (k.console_request csl rule)
  pub terminations :
      (csl : Console) (timed_out : Bool) (pod : Option Pod)
      → Keeps view (k.console_terminate csl timed_out pod)

module _ {S V : Type 0} (view : S → V) (k : Workloads S) (keeps : WorkloadsKeep view k) where
  apply_console-Keeps : (csl : Console) → Keeps view (apply_console k csl)
  unfolding apply_console
  apply_console-Keeps csl =
      Keeps-bind view _ _
        (Keeps-wrapping view "CreateOrUpdate failed" _ (
          create_or_update-Keeps view k.consoles keeps.console_calls console_name console_diff csl))
        λ found. Keeps-pure view found.1

  pub set_defaults-Keeps : (n : NamespacedName) (csl : Console) → Keeps view (set_defaults k n csl)
  unfolding set_defaults
  set_defaults-Keeps n csl =
      Keeps-bind view _ _
        (Keeps-wrapping view "failed to retrieve console template" _ (
          Keeps-read view (λ s.
            k.templates (record { namespace = n.namespace; name = csl.spec.console_template_ref })
              s)))
        λ tpl.
          Keeps-bind {A = Console} view _ _
            (Keeps-wrapping view "failed to set controller reference on console object" _ (
              Keeps-lift view
                (wrapped "failed to set controller reference" (k.set_template_controller tpl csl))))
            λ owned.
              Keeps-bind view _ _
                (apply_console-Keeps (set_console_timeout (set_console_ttls owned tpl) tpl))
                λ stored. Keeps-pure view (stored, tpl)

  pub authorise-Keeps :
      (n : NamespacedName) (csl : Console) (tpl : ConsoleTemplate) (command : List String)
      → Keeps view (authorise k n csl tpl command)
  unfolding authorise
  authorise-Keeps n csl tpl command =
      Keeps-if view (has_authorisation_rules tpl) _ _
        (Keeps-bind {A = ConsoleAuthorisationRule} view _ _
          (Keeps-wrapping view "failed to determine authorisation rule for console command" _
            (Keeps-lift view (get_authorisation_rule_for_command tpl command)))
          λ rule.
            Keeps-bind view _ _
              (create_authorisation_objects-Keeps view k.access keeps.access_calls csl n
                rule.authorisers.subjects)
              λ _.
                Keeps-bind {A = ConsoleAuthorisation} view _ _
                  (Keeps-wrapping view "failed to retrieve console authorisation" _
                    (Keeps-read view (k.access.authorisations.get n)))
                  λ authorisation. Keeps-pure view (some rule, some authorisation))
        (Keeps-pure view (none, none))

  gc_requeue-Keeps : (csl : Console) → Keeps view (gc_requeue k csl)
  unfolding gc_requeue
  gc_requeue-Keeps csl = Keeps-bind view _ _ (Keeps-lift view (get_gc_time csl)) λ gc_time.
      Keeps-bind view _ _ (Keeps-lift view (dereference gc_time)) λ t. Keeps-pure view (at t)

  requeue_for-Keeps :
      (recording : Bool) (n : NamespacedName) (csl : Console) (tpl : ConsoleTemplate)
      (authorisation : Option ConsoleAuthorisation) (phase : Phase)
      → Keeps view (requeue_for k recording n csl tpl authorisation phase)
  unfolding requeue_for
  requeue_for-Keeps recording n csl tpl authorisation creating = Keeps-pure view never
  requeue_for-Keeps recording n csl tpl authorisation pending_authorisation = gc_requeue-Keeps csl
  requeue_for-Keeps recording n csl tpl authorisation pending = Keeps-pure view (after_seconds 1)
  requeue_for-Keeps recording n csl tpl authorisation running =
      Keeps-bind view _ _
        (create_or_update_user_rbac-Keeps view k.access keeps.access_calls tpl n csl authorisation)
        λ _.
          Keeps-if view recording _ _
            (Keeps-bind view _ _
              (create_or_update_service_rbac-Keeps view k.access keeps.access_calls tpl n csl)
              λ _. Keeps-pure view (after_seconds 30))
            (Keeps-pure view (after_seconds 30))
  requeue_for-Keeps recording n csl tpl authorisation stopped = gc_requeue-Keeps csl
  requeue_for-Keeps recording n csl tpl authorisation destroyed = gc_requeue-Keeps csl

  publish_terminations-Keeps :
      (csl : Console) (events : List AuditEvent) → Keeps view (publish_terminations k csl events)
  unfolding publish_terminations
  publish_terminations-Keeps csl [] = Keeps-pure view tt
  publish_terminations-Keeps csl (console_terminate timed_out pod ∷ events) =
      Keeps-bind view _ _ (Keeps-attempt view _ (keeps.terminations csl timed_out pod))
        λ _. publish_terminations-Keeps csl events
  publish_terminations-Keeps csl (console_pending_authorisation ∷ events) =
      publish_terminations-Keeps csl events
  publish_terminations-Keeps csl (console_authorised ∷ events) =
      publish_terminations-Keeps csl events
  publish_terminations-Keeps csl (console_started ∷ events) = publish_terminations-Keeps csl events
  publish_terminations-Keeps csl (console_ended _ _ ∷ events) =
      publish_terminations-Keeps csl events
  publish_terminations-Keeps csl (console_ended_expired _ _ ∷ events) =
      publish_terminations-Keeps csl events
  publish_terminations-Keeps csl (console_ended_unknown ∷ events) =
      publish_terminations-Keeps csl events
  publish_terminations-Keeps csl (console_expired_unauthorised ∷ events) =
      publish_terminations-Keeps csl events
  publish_terminations-Keeps csl (console_destroyed ∷ events) =
      publish_terminations-Keeps csl events

  pub settle-Keeps :
      (recording : Bool) (n : NamespacedName) (tpl : ConsoleTemplate) (now : ℕ) (csl : Console)
      (ctx : StatusContext)
      → Keeps view (settle k recording n tpl now csl ctx)
  unfolding settle
  settle-Keeps recording n tpl now csl ctx =
      Keeps-bind view _ _ (Keeps-lift view (generate_status_and_audit_events csl ctx now))
        λ (updated, events). Keeps-bind view _ _ (publish_terminations-Keeps csl events) λ _.
          Keeps-bind view _ _ (apply_console-Keeps updated) λ stored.
            Keeps-bind view _ _
              (requeue_for-Keeps recording n stored tpl ctx.authorisation stored.status.phase)
              λ res. Keeps-bind view _ _ (Keeps-lift view (eligible_for_gc stored now)) λ gone.
                Keeps-if view gone _ _
                  (Keeps-bind view _ _ (keeps.console_calls.deletes stored)
                    λ _. Keeps-pure view (never, events))
                  (Keeps-pure view (res, events))
