-- ===== src/Runner/Creating.antt =====
-- runner.go: creating a console and following it until it can be attached to, and authorising one.
-- Where the source hands a console back with an error, the model has the error.
pub mod Composing
pub mod Following
use theatre.Prelude.{
  ℕ, String, ◌<>◌, Bool, true, false, Option, none, some, List, [], ◌∷◌, Result, ok, err, Failure,
  if◌then◌else◌,
}
use theatre.Prelude.Results.{wrap}
use theatre.Prelude.Exec.{Exec, pure, raise, lift, wrapping, attempt, ◌>>=◌}
use theatre.Kubernetes.{NamespacedName, ObjectMeta, Subject}
use theatre.Console.{Console, ConsoleSpec, ConsoleStatus, creating, second}
use theatre.Console.Template.{ConsoleTemplate, get_authorisation_rule_for_command}
use theatre.ConsoleController.Job.{merge}
use theatre.Runner.{
  Api, Labels, Options, Operation, LifecycleHook, hook_or_default, is_pending_authorisation_error,
}
use theatre.Runner.Attaching.{AttachOptions, attach}
use theatre.Runner.Finding.{find_template_by_selector, get}
use theatre.Runner.Waiting.{wait_until_ready}
use Prim.Native.Nat.{◌/◌}

-- `CreateOptions`, with the timeout in nanoseconds; no labels are the empty map.
pub record CreateOptions (S : Type 0) : Type 0 where
  pub namespace : String
  pub selector : String
  pub timeout : ℕ
  pub reason : String
  pub command : List String
  pub attach : Bool
  pub noninteractive : Bool
  pub labels : Labels
  pub hook : Option (LifecycleHook S)

-- `AuthoriseOptions`
pub record AuthoriseOptions (S : Type 0) : Type 0 where
  pub namespace : String
  pub console_name : String
  pub username : String
  pub attach : Bool
  pub hook : Option (LifecycleHook S)

-- The console that `CreateResource` submits, whose name is left to the server.
unfoldable pub new_console : String → ConsoleTemplate → Options → Console
new_console namespace template opts = record {
  metadata = record {
    name = "";
    namespace = namespace;
    labels = merge opts.labels template.metadata.labels;
    annotations = [];
    owner_references = [];
    creation_timestamp = 0;
    deletion_timestamp = none;
  };
  spec = record {
    user = "";
    reason = opts.reason;
    timeout_seconds = opts.timeout;
    console_template_ref = template.metadata.name;
    ttl_seconds_before_running = none;
    ttl_seconds_after_finished = none;
    command = opts.cmd;
    noninteractive = opts.noninteractive;
  };
  status = record { pod_name = ""; expiry_time = none; completion_time = none; phase = creating };
}

-- The patch of `Authorise`, which appends a subject to the authorisations.
unfoldable pub authorise_patch : String → String → List Operation
authorise_patch namespace username =
    record {
      op = "add";
      path = "/spec/authorisations/-";
      value = record { kind = "User"; api_group = ""; name = username; namespace = namespace };
    }
    ∷ []

module _ {S Raw : Type 0} (k : Api S Raw) where
  -- `CreateResource`
  unfoldable pub create_resource : String → ConsoleTemplate → Options → Exec S Console
  unfolding new_console
  create_resource namespace template opts = do
    _ ← lift (k.validate_labels (merge opts.labels template.metadata.labels))
    k.create_console (template.metadata.name <> "-") (new_console namespace template opts)

  unfoldable pub options_of : CreateOptions S → Options
  options_of opts = record {
    cmd = opts.command;
    timeout = opts.timeout / second;
    reason = opts.reason;
    labels = merge [] opts.labels;
    noninteractive = opts.noninteractive;
  }

  -- After the first wait: a console that needs an authorisation is announced, and any other error
  -- is returned. The error of the hook is dropped.
  unfoldable pub announce :
      LifecycleHook S → ConsoleTemplate → List String → Console → Result Console → Exec S (Unit {0})
  announce hook tpl command csl (ok _) = pure tt
  announce hook tpl command csl (err e) =
      if is_pending_authorisation_error e
      then (do
        rule ←
            wrapping "failed to get authorisation rule"
              (lift (get_authorisation_rule_for_command tpl command))
        _ ← attempt (hook.console_requires_authorisation csl rule)
        pure tt)
      else raise e

  unfoldable pub attach_to : CreateOptions S → Console → Exec S Console
  attach_to opts csl = do
    _ ← attach k (record {
      namespace = csl.metadata.namespace;
      name = csl.metadata.name;
      hook = some (hook_or_default opts.hook);
    })
    pure csl

  -- The first part of `Create`: the template and the console that is made from it.
  unfoldable pub request : CreateOptions S → Exec S (ConsoleTemplate × Console)
  unfolding create_resource options_of
  request opts = do
    let hook = hook_or_default opts.hook
    tpl ← (λ s. (find_template_by_selector k opts.namespace opts.selector s, s))
    _ ← hook.template_found tpl
    created ← create_resource tpl.metadata.namespace tpl (options_of opts)
    _ ← hook.console_created created
    pure (tpl, created)

  -- The last part, for a console that is ready.
  unfoldable pub conclude : CreateOptions S → Console → Exec S Console
  unfolding attach_to
  conclude opts csl = do
    _ ← (hook_or_default opts.hook).console_ready csl
    if opts.attach then attach_to opts csl else pure csl

  -- `Create`
  unfoldable pub create : CreateOptions S → Exec S Console
  unfolding request announce conclude
  create opts = do
    (tpl, created) ← request opts
    first ← attempt (wait_until_ready k created false)
    _ ← announce (hook_or_default opts.hook) tpl opts.command created first
    csl ← wait_until_ready k created true
    conclude opts csl

  -- The rest of `Authorise` with `Attach` set; the hook gets the console as it was before the wait.
  attach_authorised : AuthoriseOptions S → Exec S (Unit {0})
  attach_authorised opts = do
    let hook = hook_or_default opts.hook
    csl ← (λ s. (get k (record { namespace = opts.namespace; name = opts.console_name }) s, s))
    _ ← wait_until_ready k csl true
    _ ← hook.console_ready csl
    attach k (record { namespace = opts.namespace; name = opts.console_name; hook = some hook })

  -- `Authorise`
  unfoldable pub authorise : AuthoriseOptions S → Exec S (Unit {0})
  unfolding authorise_patch attach_authorised
  authorise opts = do
    authz ← (λ s. (
      k.get_authorisation (record { namespace = opts.namespace; name = opts.console_name }) s,
      s,
    ))
    _ ← k.patch_authorisation authz (authorise_patch opts.namespace opts.username)
    if opts.attach then attach_authorised opts else pure tt
