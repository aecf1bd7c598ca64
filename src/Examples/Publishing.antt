-- ===== src/Examples/Publishing.antt =====
-- A recorder whose publisher accepts everything, and the webhooks and log lines that use it.
use theatre.Prelude.{◌≡◌, refl, ◌⊎◌, String, false, none, some, List, [], ◌∷◌, ◌++◌, ok, lookup}
use theatre.Kubernetes.Workload.{Pod, PodPhase}
use theatre.Console.{Console, running}
use theatre.Recorder.{
  Recorder, Counters, Event, event_request, event_authorise, event_start, event_attach,
  event_terminated, console_request, console_authorise, console_start, console_attach,
  console_terminate, pod_statuses,
}
use theatre.Recorder.Counting.{IsCounted, lifecycle_events-IsCounted}
use theatre.Recorder.Statuses.{pod_statuses-codes, last_code, IsExplained}
use theatre.Webhooks.{allowed, patched, AttachRequest, Reader, handle_attach, handle_console}
use theatre.Webhooks.Answering.{handle_attach-allowed, IsLetThrough, handle_console-patched}
use theatre.Logging.{Value, text, other}
use theatre.Examples.{console_in, meta, pod_spec, migrations}

abbrev recorder : Recorder (List Event)
recorder = record {
  context_name = "production";
  publish = λ event s. (ok "id", event ∷ s);
  id_builder = λ csl. csl.metadata.name;
  print_number = λ n. "0";
  signal_name = λ n. "SIGTERM";
}

abbrev zero_counts : Counters
zero_counts = record { published = []; publish_errors = [] }

abbrev live : Console
live = console_in running

abbrev pod : Pod
pod = record {
  metadata = record (meta "pod") { labels = ("console-name", "console") ∷ [] };
  spec = pod_spec;
  phase = PodPhase.running;
  status_message = "";
  init_container_statuses = [];
  container_statuses =
      record {
        name = "app";
        terminated = some (record { exit_code = 137; signal = 9; reason = "Error"; message = "" });
        waiting = none;
      }
      ∷ [];
  ephemeral_container_statuses = [];
}

lifecycle_events-IsCounted_example :
    IsCounted recorder "console_request" event_request live zero_counts []
      (console_request recorder live (some migrations) 7 (zero_counts, []))
    × IsCounted recorder "console_authorise" event_authorise live zero_counts []
        (console_authorise recorder live "bob" 7 (zero_counts, []))
    × IsCounted recorder "console_start" event_start live zero_counts []
        (console_start recorder live "job" 7 (zero_counts, []))
    × IsCounted recorder "console_attach" event_attach live zero_counts []
        (console_attach recorder live "bob" "app" 7 (zero_counts, []))
    × IsCounted recorder "console_terminate" event_terminated live zero_counts []
        (console_terminate recorder live false (some pod) 7 (zero_counts, []))
lifecycle_events-IsCounted_example =
    lifecycle_events-IsCounted recorder live 7 zero_counts [] (some migrations) "bob" "job" "app"
      false (some pod)

pod_statuses-codes_example :
    ((x : String)
      → lookup x (pod_statuses recorder (some pod)).1
        ≡ last_code x ([] ++ (pod.container_statuses ++ [])))
    × IsExplained (pod_statuses recorder (some pod))
pod_statuses-codes_example = pod_statuses-codes recorder pod

abbrev request : AttachRequest
request = record {
  namespace = "staging";
  name = "pod";
  username = "bob";
  container = ok "app";
  dry_run = some false;
}

abbrev reader : Reader (List Event)
reader = record { get_pod = λ n s. ok pod; get_console = λ n s. ok live }

abbrev left : Counters × List Event
left = (handle_attach reader recorder 7 request (zero_counts, [])).1

attached :
    handle_attach reader recorder 7 request (zero_counts, [])
    ≡ (ok (allowed "attachment observed"), left)
unfolding handle_attach lookup
attached = refl

handle_attach-allowed_example :
    (p : Pod) × (ok pod ≡ ok p)
    × (((lookup "console-name" p.metadata.labels ≡ none)
          × (◌≡◌ {A = Counters × List Event} left (zero_counts, [])))
        ⊎ IsLetThrough reader recorder 7 request zero_counts [] p left)
handle_attach-allowed_example =
    handle_attach-allowed reader recorder 7 request zero_counts [] "attachment observed" left
      attached

authentic : Console
authentic = record live { spec = record live.spec { user = "bob" } }

authenticated : handle_console (ok live) "bob" (λ csl. ok tt) ≡ patched authentic
unfolding handle_console authentic
authenticated = refl

handle_console-patched_example :
    (csl : Console) × (ok live ≡ ok csl)
    × (authentic.spec.user ≡ "bob")
    × (record authentic { spec = record authentic.spec { user = csl.spec.user } } ≡ csl)
handle_console-patched_example =
    handle_console-patched (ok live) "bob" (λ csl. ok tt) authentic authenticated

-- The line of a conflict that a reconciliation ends with.
abbrev conflict_line : List Value
conflict_line = text "event" ∷ text "ReconcileError" ∷ text "error" ∷ other "conflict" ∷ []
