-- ===== src/ConsoleController/Reconcile/Authorised.antt =====
-- console_controller.go: a reconciliation gives no job to a console that is not authorised.
use theatre.Prelude.{
  if◌then◌else◌, ◌≡◌, refl, ap, ◌∙◌, ℕ, String, Bool, true, false, Option, none, some, List, Result,
  ok, err, Failure,
}
use theatre.Prelude.Results.{wrapped-eq-ok}
use theatre.Prelude.Exec.{Exec, pure, attempt}
use theatre.Prelude.Exec.Keeps.{
  Keeps, Keeps-pure, Keeps-lift, Keeps-wrapping, Keeps-attempt, Keeps-if, KeepsAt, KeepsAt-of_keeps,
  KeepsAt-bind,
}
use theatre.Kubernetes.{NamespacedName}
use theatre.Kubernetes.Workload.{Job}
use theatre.Console.{Console}
use theatre.Console.Template.{ConsoleTemplate, ConsoleAuthorisationRule}
use theatre.ConsoleController.Defaults.{get_command}
use theatre.ConsoleAuthorisation.{ConsoleAuthorisation, is_console_authorised}
use theatre.ConsoleController.Job.{JobOptions}
use theatre.ConsoleController.Names.{get_job_name}
use theatre.ConsoleController.Status.{StatusContext}
use theatre.ConsoleController.Workloads.{Workloads}
use theatre.ConsoleController.Reconcile.{
  authorise, set_defaults, ensure_job, observe_pods, proceed, is_new, reconcile,
}
use theatre.ConsoleController.Reconcile.Keeping.{
  WorkloadsKeep, set_defaults-Keeps, authorise-Keeps, settle-Keeps,
}

-- Without a job nothing but the status is left to settle.
observe_pods-Keeps :
    {S V : Type 0} (view : S → V) (k : Workloads S) (keeps : WorkloadsKeep view k)
    (recording : Bool) (n : NamespacedName) (tpl : ConsoleTemplate) (now : ℕ) (csl : Console)
    (ctx : StatusContext) (job : Option Job)
    → job ≡ none
    → Keeps view (observe_pods k recording n tpl now csl ctx job)
unfolding observe_pods
observe_pods-Keeps view k keeps recording n tpl now csl ctx none h =
    settle-Keeps view k keeps recording n tpl now csl ctx
observe_pods-Keeps view k keeps recording n tpl now csl ctx (some job) h = cc

-- A console that is not authorised and has no job gets none.
ensure_job-unauthorised :
    {S : Type 0} (k : Workloads S) (options : JobOptions) (n : NamespacedName) (csl : Console)
    (tpl : ConsoleTemplate) (authorised : Bool) (found : Result Job) (e : Failure) (s : S)
    → authorised ≡ false
    → found ≡ err e
    → ensure_job k options n csl tpl authorised found s ≡ (ok none, s)
unfolding ensure_job
ensure_job-unauthorised k options n csl tpl false (err x) e s h g = refl
ensure_job-unauthorised k options n csl tpl true found e s h g = cc h
ensure_job-unauthorised k options n csl tpl false (ok job) e s h g = cc g

module _ {S V : Type 0} (view : S → V) (k : Workloads S)
    (find_job : NamespacedName → V → Result Job) (options : JobOptions) (now : ℕ)
    (n : NamespacedName) (keeps : WorkloadsKeep view k)
    (reads : (m : NamespacedName) (t : S) → k.jobs.get m t ≡ find_job m (view t)) where
  -- The name of the console's job.
  abbrev pub job_key : NamespacedName
  job_key = record { namespace = n.namespace; name = get_job_name n.name }

  proceed-KeepsAt :
      (csl : Console) (tpl : ConsoleTemplate) (command : List String)
      (rule : Option ConsoleAuthorisationRule) (authorisation : Option ConsoleAuthorisation) (s : S)
      (e : Failure)
      → find_job job_key (view s) ≡ err e
      → is_console_authorised rule authorisation ≡ false
      → KeepsAt view (proceed k options now n csl tpl command rule authorisation) s
  unfolding proceed
  proceed-KeepsAt csl tpl command rule authorisation s e gone refused =
      let make : Exec S (Option Job) = λ t.
        ensure_job k options n csl tpl (is_console_authorised rule authorisation)
          (k.jobs.get job_key t) t in
      let stay =
        ensure_job-unauthorised k options n csl tpl (is_console_authorised rule authorisation)
          (k.jobs.get job_key s) e s refused (reads job_key s ∙ gone) in
      KeepsAt-bind view make _ s (record { kept = ap (λ p. view p.1) stay })
        λ job answered.
          let none_there : job ≡ none = cc (answered, ap (λ p. p.0) stay) in
          KeepsAt-of_keeps view
            (observe_pods k options.enable_session_recording n tpl now csl
              (record {
                command = command;
                is_authorised = is_console_authorised rule authorisation;
                authorisation = authorisation;
                authorisation_rule = rule;
                pod = none;
                job = job;
              })
              job)
            _
            (observe_pods-Keeps view k keeps options.enable_session_recording n tpl now csl _ job
              none_there)

  reconcile-KeepsAt :
      (before : Console) (s : S) (e : Failure)
      → find_job job_key (view s) ≡ err e
      → ((csl : Console) (tpl : ConsoleTemplate) (command : List String)
            (rule : Option ConsoleAuthorisationRule) (authorisation : Option ConsoleAuthorisation)
          → (set_defaults k n before s).0 ≡ ok (csl, tpl)
          → get_command csl tpl ≡ ok command
          → (authorise k n csl tpl command (set_defaults k n before s).1).0
            ≡ ok (rule, authorisation)
          → is_console_authorised rule authorisation ≡ false)
      → KeepsAt view (reconcile k options now n before) s
  unfolding reconcile
  reconcile-KeepsAt before s e gone refused =
      let defaults = set_defaults-Keeps view k keeps n before in
      KeepsAt-bind view _ _ s (KeepsAt-of_keeps view _ s defaults) λ (csl, tpl) h1.
        let s1 = (set_defaults k n before s).1 in
        KeepsAt-bind view _ _ s1
          (KeepsAt-of_keeps view _ s1 (
            Keeps-wrapping view "neither the console or template have a command to evaluate" _
              (Keeps-lift view (get_command csl tpl))))
          λ command h2.
            let allowed = authorise-Keeps view k keeps n csl tpl command in
            KeepsAt-bind view _ _ s1 (KeepsAt-of_keeps view _ s1 allowed)
              λ (rule, authorisation) h3.
                let s2 = (authorise k n csl tpl command s1).1 in
                let ask =
                  attempt (if is_new k before then k.console_request csl rule else pure tt) in
                let asked : Keeps view ask = Keeps-attempt view _ (
                  Keeps-if view (is_new k before) _ _ (keeps.requests csl rule)
                    (Keeps-pure view tt)) in
                KeepsAt-bind view ask
                  (λ _. proceed k options now n csl tpl command rule authorisation) s2
                  (KeepsAt-of_keeps view _ s2 asked)
                  λ _ _.
                    proceed-KeepsAt csl tpl command rule authorisation (ask s2).1 e
                      (ap (find_job job_key) (asked.at s2 ∙ allowed.at s1 ∙ defaults.at s) ∙ gone)
                      (refused csl tpl command rule authorisation h1
                        (wrapped-eq-ok "neither the console or template have a command to evaluate"
                          (get_command csl tpl) h2)
                        h3)

-- A reconciliation that finds no job, and whose authorisation stage leaves the console unauthorised,
-- changes nothing that only the calls for jobs and pods change: no job is created, brought up to date
-- or deleted.
pub reconcile_unauthorised :
    {S V : Type 0} (view : S → V) (k : Workloads S) (find_job : NamespacedName → V → Result Job)
    (options : JobOptions) (now : ℕ) (n : NamespacedName) (before csl : Console)
    (tpl : ConsoleTemplate) (command : List String) (rule : Option ConsoleAuthorisationRule)
    (authorisation : Option ConsoleAuthorisation) (s : S) (e : Failure)
    → WorkloadsKeep view k
    → ((m : NamespacedName) (t : S) → k.jobs.get m t ≡ find_job m (view t))
    → find_job (record { namespace = n.namespace; name = get_job_name n.name }) (view s) ≡ err e
    → (set_defaults k n before s).0 ≡ ok (csl, tpl)
    → get_command csl tpl ≡ ok command
    → (authorise k n csl tpl command (set_defaults k n before s).1).0 ≡ ok (rule, authorisation)
    → is_console_authorised rule authorisation ≡ false
    → view (reconcile k options now n before s).1 ≡ view s
reconcile_unauthorised view k find_job options now n before csl tpl command rule authorisation s e
      keeps reads gone h1 h2 h3 refused =
    (reconcile-KeepsAt view k find_job options now n keeps reads before s e gone
      λ csl' tpl' command' rule' authorisation' h1' h2' h3'.
        cc (h1, h1', h2, h2', h3, h3', refused)).kept
