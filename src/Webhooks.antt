-- ===== src/Webhooks.antt =====
-- internal/webhook/workloads/v1alpha1: the webhooks that record the user of a console, check a
-- template, and observe attachments. Log lines are left out.
pub mod Answering
use theatre.Prelude.{
  ℕ, String, Bool, true, false, Option, none, some, List, [], ◌∷◌, Result, ok, err, Failure, lookup,
}
use theatre.Prelude.Exec.{Exec, pure, raise, lift, attempt, ◌>>=◌}
use theatre.Kubernetes.{NamespacedName}
use theatre.Kubernetes.Workload.{Pod}
use theatre.Console.{Console, dereference}
use theatre.Console.Template.{ConsoleTemplate, ValidationError, validate}
use theatre.Recorder.{Recorder, Counters, console_attach}

-- `admission.Errored`, `Allowed`, `Denied` and `PatchResponseFromRaw`
pub data Answer : Type 0 where
  errored : ℕ → Answer
  allowed : String → Answer
  denied : String → Answer
  patched : Console → Answer

-- `ConsoleAuthenticatorWebhook.Handle`, from what the request decodes to and its user; `encodes` is
-- whether the changed console can be written as JSON.
unfoldable pub authenticated : Console → Result (Unit {0}) → Answer
authenticated copy (ok _) = patched copy
authenticated copy (err _) = errored 500

unfoldable pub handle_console : Result Console → String → (Console → Result (Unit {0})) → Answer
unfolding authenticated
handle_console (err e) user encodes = errored 400
handle_console (ok csl) user encodes =
    let copy = record csl { spec = record csl.spec { user = user } } in
    authenticated copy (encodes copy)

-- `ConsoleTemplateValidationWebhook.Handle`
unfoldable pub validated : List ValidationError → Answer
validated [] = allowed ""
validated (_ ∷ _) = denied "the console template spec is invalid"

unfoldable pub handle_template : Result ConsoleTemplate → Answer
unfolding validated
handle_template (err e) = errored 400
handle_template (ok template) = validated (validate template)

-- A request to attach to a pod: its key, its user, the container that its options name, and whether
-- it is a dry run.
pub record AttachRequest : Type 0 where
  pub namespace : String
  pub name : String
  pub username : String
  pub container : Result String
  pub dry_run : Option Bool

-- What the webhook reads of the cluster.
pub record Reader (S : Type 0) : Type 0 where
  pub get_pod : NamespacedName → S → Result Pod
  pub get_console : NamespacedName → S → Result Console

module _ {S : Type 0} (k : Reader S) (l : Recorder S) (now : ℕ) where
  -- A console that was found: the attachment is recorded unless it is a dry run. The error of the
  -- recorder is only logged.
  unfoldable pub observe : AttachRequest → String → Console → Bool → Exec (Counters × S) Answer
  observe req container csl true = pure (allowed "dry-run set; skipping attachment observation")
  observe req container csl false = do
    _ ← attempt (console_attach l csl req.username container now)
    pure (allowed "attachment observed")

  unfoldable pub with_console : AttachRequest → String → Result Console → Exec (Counters × S) Answer
  unfolding observe
  with_console req container (err e) = pure (errored 500)
  with_console req container (ok csl) = do
    dry_run ← lift (dereference req.dry_run)
    observe req container csl dry_run

  unfoldable pub with_label : AttachRequest → String → Option String → Exec (Counters × S) Answer
  unfolding with_console
  with_label req container none before = pure (allowed "not a console; skipping observation") before
  with_label req container (some console) (c, s) =
      with_console req container
        (k.get_console (record { namespace = req.namespace; name = console }) s) (c, s)

  unfoldable pub with_pod : AttachRequest → String → Result Pod → Exec (Counters × S) Answer
  unfolding with_label
  with_pod req container (err e) = pure (errored 400)
  with_pod req container (ok pod) =
      with_label req container (lookup "console-name" pod.metadata.labels)

  -- `ConsoleAttachObserverWebhook.Handle`
  unfoldable pub with_options : AttachRequest → Result String → Exec (Counters × S) Answer
  unfolding with_pod
  with_options req (err e) before = pure (errored 400) before
  with_options req (ok container) (c, s) =
      with_pod req container (k.get_pod (record { namespace = req.namespace; name = req.name }) s)
        (c, s)

  unfoldable pub handle_attach : AttachRequest → Exec (Counters × S) Answer
  unfolding with_options
  handle_attach req = with_options req req.container
