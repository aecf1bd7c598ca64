-- ===== src/Recorder.antt =====
-- pkg/workloads/console/events/events.go and api/workloads/v1alpha1/lifecycle_recorder.go: the audit
-- events of a console, and the recorder that publishes and counts them.
pub mod Counting
pub mod Identity
pub mod Statuses
use theatre.Prelude.{
  ℕ, ◌+◌, ltb, String, ◌==◌, ◌<>◌, Bool, true, false, not, Option, none, some, List, [], ◌∷◌,
  Result, ok, err, Failure, if◌then◌else◌, insert, lookup,
}
use theatre.Prelude.Exec.{Exec}
use theatre.Prelude.Texts.{join}
use theatre.Kubernetes.Workload.{Pod, ContainerStatus, Terminated, Waiting}
use theatre.Console.{Console}
use theatre.Console.Template.{ConsoleAuthorisationRule}

-- `EventKind`
pub data EventKind : Type 0 where
  event_request event_authorise event_start event_attach event_terminated : EventKind

abbrev pub event_text : EventKind → String
event_text event_request = "Request"
event_text event_authorise = "Authorise"
event_text event_start = "Start"
event_text event_attach = "Attach"
event_text event_terminated = "Terminate"

pub record CommonEvent : Type 0 where
  pub version : String
  pub kind : String
  pub event : EventKind
  pub observed_at : ℕ
  pub id : String
  pub annotations : List (String × String)

-- `CommonEvent.EventKind`
unfoldable pub event_kind : CommonEvent → String
event_kind e = join (e.kind ∷ event_text e.event ∷ []) "/"

pub record ConsoleRequestSpec : Type 0 where
  pub reason : String
  pub username : String
  pub context : String
  pub namespace : String
  pub console_template : String
  pub console : String
  pub required_authorisations : ℕ
  pub authorisation_rule_name : String
  pub timestamp : ℕ
  pub labels : List (String × String)

pub record ConsoleAttachSpec : Type 0 where
  pub username : String
  pub pod : String
  pub container : String

pub record ConsoleTerminatedSpec : Type 0 where
  pub timed_out : Bool
  pub container_statuses : List (String × String)
  pub exit_codes : List (String × ℕ)

-- The specs of the five kinds of event; those with one field are that field.
pub data Spec : Type 0 where
  request_spec : ConsoleRequestSpec → Spec
  authorise_spec : String → Spec
  start_spec : String → Spec
  attach_spec : ConsoleAttachSpec → Spec
  terminated_spec : ConsoleTerminatedSpec → Spec

pub record Event : Type 0 where
  pub common : CommonEvent
  pub spec : Spec

-- `NewConsoleEventID`, with the text of the time in the form 20060102150405
unfoldable pub new_console_event_id : (ℕ → String) → String → String → String → ℕ → String
new_console_event_id format context namespace console time =
    join (format time ∷ context ∷ namespace ∷ console ∷ []) "/"

-- `consoleIdBuilderImpl.BuildId`
unfoldable pub build_id : (ℕ → String) → String → Console → String
unfolding new_console_event_id
build_id format context_name csl =
    new_console_event_id format context_name csl.metadata.namespace csl.metadata.name
      csl.metadata.creation_timestamp

-- The two counters, by the name of the event.
pub record Counters : Type 0 where
  pub published : List (String × ℕ)
  pub publish_errors : List (String × ℕ)

abbrev pub count_of : String → List (String × ℕ) → ℕ
count_of name counts = elim (lookup name counts) [ none ↦ 0 | some n ↦ n ]

unfoldable pub increment : String → List (String × ℕ) → List (String × ℕ)
increment name counts = insert name (count_of name counts + 1) counts

-- `lifecycleEventRecorderImpl`, over the state `S` of the publisher.
pub record Recorder (S : Type 0) : Type 0 where
  pub context_name : String
  pub publish : Event → Exec S String
  pub id_builder : Console → String
  pub print_number : ℕ → String
  pub signal_name : ℕ → String

-- `appendStatusMessages` for one status: the message of a container that ended.
unfoldable pub optional : Bool → String → String
optional true text = text
optional false text = ""

module _ {S : Type 0} (l : Recorder S) where
  unfoldable pub terminated_message : Terminated → String
  unfolding optional
  terminated_message t =
      ("Terminated with exit code " <> l.print_number t.exit_code)
      <> (optional (not (t.reason == "")) (". Reason: " <> t.reason)
          <> (optional (ltb 0 t.signal) (" (received signal " <> (l.signal_name t.signal <> ")"))
              <> optional (not (t.message == "")) (". Message: " <> t.message)))

  unfoldable pub waiting_message : Waiting → String
  unfolding optional
  waiting_message w =
      "Waiting."
      <> (optional (not (w.reason == "")) (" Reason: " <> (w.reason <> "."))
          <> optional (not (w.message == "")) (" Message: " <> w.message))

  -- The two maps that `appendStatusMessages` fills, and what one status adds to them.
  unfoldable pub append_status :
      ContainerStatus
      → List (String × String) × List (String × ℕ)
      → List (String × String) × List (String × ℕ)
  unfolding terminated_message waiting_message
  append_status status (messages, exit_codes) = elim status.terminated [
    | some t ↦ (
      insert status.name (terminated_message t) messages,
      insert status.name t.exit_code exit_codes,
    )
    | none ↦ elim status.waiting [
      | some w ↦ (insert status.name (waiting_message w) messages, exit_codes)
      | none ↦ (messages, exit_codes)
    ]
  ]

  -- `appendStatusMessages`
  unfoldable pub append_status_messages :
      List ContainerStatus
      → List (String × String) × List (String × ℕ)
      → List (String × String) × List (String × ℕ)
  unfolding append_status
  append_status_messages [] maps = maps
  append_status_messages (status ∷ statuses) maps =
      append_status_messages statuses (append_status status maps)

  unfoldable pub pod_statuses : Option Pod → List (String × String) × List (String × ℕ)
  unfolding append_status_messages
  pod_statuses none = ([], [])
  pod_statuses (some pod) = append_status_messages pod.ephemeral_container_statuses (
      append_status_messages pod.container_statuses
        (append_status_messages pod.init_container_statuses ([], [])))

  -- `makeConsoleCommonEvent`, at the time `now`
  unfoldable pub make_console_common_event : EventKind → Console → ℕ → CommonEvent
  make_console_common_event kind csl now = record {
    version = "v1alpha1";
    kind = "Console";
    event = kind;
    observed_at = now;
    id = l.id_builder csl;
    annotations = [];
  }

  -- The end of each method: the event is published, and the call is counted under its name.
  counted : String → Counters → Result String × S → Result (Unit {0}) × (Counters × S)
  counted name c (ok id, s) = (ok tt, (record c { published = increment name c.published }, s))
  counted name c (err e, s) =
      (err e, (record c { publish_errors = increment name c.publish_errors }, s))

  unfoldable pub publish_event : String → Event → Exec (Counters × S) (Unit {0})
  unfolding counted increment
  publish_event name event (c, s) = counted name c (l.publish event s)

  abbrev required_by : Option ConsoleAuthorisationRule → ℕ
  required_by none = 0
  required_by (some rule) = rule.authorisers.authorisations_required

  abbrev name_of_rule : Option ConsoleAuthorisationRule → String
  name_of_rule none = ""
  name_of_rule (some rule) = rule.name

  -- `ConsoleRequest`
  unfoldable pub console_request :
      Console → Option ConsoleAuthorisationRule → ℕ → Exec (Counters × S) (Unit {0})
  unfolding make_console_common_event publish_event
  console_request csl auth_rule now = publish_event "console_request" (record {
    common = make_console_common_event event_request csl now;
    spec = request_spec (record {
      reason = csl.spec.reason;
      username = csl.spec.user;
      context = l.context_name;
      namespace = csl.metadata.namespace;
      console_template = csl.spec.console_template_ref;
      console = csl.metadata.name;
      required_authorisations = required_by auth_rule;
      authorisation_rule_name = name_of_rule auth_rule;
      timestamp = csl.metadata.creation_timestamp;
      labels = csl.metadata.labels;
    });
  })

  -- `ConsoleAuthorise`
  unfoldable pub console_authorise : Console → String → ℕ → Exec (Counters × S) (Unit {0})
  unfolding make_console_common_event publish_event
  console_authorise csl username now = publish_event "console_authorise" (record {
    common = make_console_common_event event_authorise csl now;
    spec = authorise_spec username;
  })

  -- `ConsoleStart`
  unfoldable pub console_start : Console → String → ℕ → Exec (Counters × S) (Unit {0})
  unfolding make_console_common_event publish_event
  console_start csl job_name now = publish_event "console_start" (record {
    common = make_console_common_event event_start csl now;
    spec = start_spec job_name;
  })

  -- `ConsoleAttach`
  unfoldable pub console_attach : Console → String → String → ℕ → Exec (Counters × S) (Unit {0})
  unfolding make_console_common_event publish_event
  console_attach csl username container_name now = publish_event "console_attach" (record {
    common = make_console_common_event event_attach csl now;
    spec =
        attach_spec
          (record { username = username; pod = csl.status.pod_name; container = container_name });
  })

  -- `ConsoleTerminate`
  unfoldable pub console_terminate :
      Console → Bool → Option Pod → ℕ → Exec (Counters × S) (Unit {0})
  unfolding make_console_common_event publish_event pod_statuses
  console_terminate csl timed_out pod now =
      let (container_statuses, exit_codes) = pod_statuses pod in
      publish_event "console_terminate" (record {
        common = make_console_common_event event_terminated csl now;
        spec = terminated_spec (record {
          timed_out = timed_out;
          container_statuses = container_statuses;
          exit_codes = exit_codes;
        });
      })
