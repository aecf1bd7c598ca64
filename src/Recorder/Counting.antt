-- ===== src/Recorder/Counting.antt =====
-- lifecycle_recorder.go: each method publishes one event of its console, and counts the call once.
use theatre.Prelude.{
  ◌≡◌, refl, ap, sym, ℕ, ◌+◌, String, ◌==◌, eq_iff, Bool, true, false, Option, List, Result, ok,
  err, arith, if◌then◌else◌, lookup-insert,
}
use theatre.Kubernetes.Workload.{Pod}
use theatre.Console.{Console}
use theatre.Console.Template.{ConsoleAuthorisationRule}
use theatre.Recorder.{
  Recorder, Counters, count_of, increment, Event, EventKind, event_request, event_authorise,
  event_start, event_attach, event_terminated, counted, publish_event, console_request,
  console_authorise, console_start, console_attach, console_terminate, make_console_common_event,
}

abbrev one_if : Bool → ℕ
one_if b = if b then 1 else 0

abbrev succeeded : Result (Unit {0}) → Bool
succeeded (ok _) = true
succeeded (err _) = false

abbrev failed : Result (Unit {0}) → Bool
failed (ok _) = false
failed (err _) = true

-- The publisher's result without the identifier of the event.
abbrev without_id : Result String → Result (Unit {0})
without_id (ok _) = ok tt
without_id (err e) = err e

-- A call that published one event of a console, counted under a name and no other: as published when
-- it succeeds, and else as an error; and its answer is the publisher's.
pub record IsCounted {S : Type 0} (l : Recorder S) (name : String) (kind : EventKind)
    (csl : Console) (c : Counters) (s : S) (answer : Result (Unit {0}) × (Counters × S))
    : Type 0 where
  pub event : Event
  pub is_kind : event.common.event ≡ kind
  pub is_of : event.common.id ≡ l.id_builder csl
  pub answered : answer.0 ≡ without_id (l.publish event s).0
  pub state : answer.1.1 ≡ (l.publish event s).1
  pub published :
      (x : String)
      → count_of x answer.1.0.published
        ≡ count_of x c.published + one_if (if name == x then succeeded answer.0 else false)
  pub errors :
      (x : String)
      → count_of x answer.1.0.publish_errors
        ≡ count_of x c.publish_errors + one_if (if name == x then failed answer.0 else false)

count_of-increment :
    (name x : String) (counts : List (String × ℕ))
    → count_of x (increment name counts) ≡ count_of x counts + one_if (name == x)
unfolding increment
count_of-increment name x counts =
    ground (arith, lookup-insert name x (count_of name counts + 1) counts, eq_iff name x)

counted-IsCounted :
    {S : Type 0} (l : Recorder S) (name : String) (kind : EventKind) (csl : Console) (event : Event)
    (c : Counters) (s : S) (answer : Result String × S)
    → event.common.event ≡ kind
    → event.common.id ≡ l.id_builder csl
    → l.publish event s ≡ answer
    → IsCounted l name kind csl c s (counted l name c answer)
unfolding counted
counted-IsCounted l name kind csl event c s (ok id, s') is_kind is_of e = record {
  event = event;
  is_kind = is_kind;
  is_of = is_of;
  answered = ap (λ p. without_id p.0) (sym e);
  state = ap (λ p. p.1) (sym e);
  published = λ x. ground (arith, count_of-increment name x c.published);
  errors = λ x. ground arith;
}
counted-IsCounted l name kind csl event c s (err x, s') is_kind is_of e = record {
  event = event;
  is_kind = is_kind;
  is_of = is_of;
  answered = ap (λ p. without_id p.0) (sym e);
  state = ap (λ p. p.1) (sym e);
  published = λ x. ground arith;
  errors = λ x. ground (arith, count_of-increment name x c.publish_errors);
}

publish_event-IsCounted :
    {S : Type 0} (l : Recorder S) (name : String) (kind : EventKind) (csl : Console) (event : Event)
    (c : Counters) (s : S)
    → event.common.event ≡ kind
    → event.common.id ≡ l.id_builder csl
    → IsCounted l name kind csl c s (publish_event l name event (c, s))
unfolding publish_event
publish_event-IsCounted l name kind csl event c s is_kind is_of =
    counted-IsCounted l name kind csl event c s (l.publish event s) is_kind is_of refl

-- Each of the recorder's methods publishes one event of its kind with the console's identifier,
-- answers success or the publisher's error as the publisher does, and adds one to the counter of its own name: to the published events
-- when it succeeds, and else to the errors.
pub lifecycle_events-IsCounted :
    {S : Type 0} (l : Recorder S) (csl : Console) (now : ℕ) (c : Counters) (s : S)
    (rule : Option ConsoleAuthorisationRule) (username job_name container : String)
    (timed_out : Bool) (pod : Option Pod)
    → IsCounted l "console_request" event_request csl c s (console_request l csl rule now (c, s))
      × IsCounted l "console_authorise" event_authorise csl c s
          (console_authorise l csl username now (c, s))
      × IsCounted l "console_start" event_start csl c s (console_start l csl job_name now (c, s))
      × IsCounted l "console_attach" event_attach csl c s
          (console_attach l csl username container now (c, s))
      × IsCounted l "console_terminate" event_terminated csl c s
          (console_terminate l csl timed_out pod now (c, s))
unfolding console_request console_authorise console_start console_attach console_terminate
    make_console_common_event
lifecycle_events-IsCounted l csl now c s rule username job_name container timed_out pod = (
  publish_event-IsCounted l "console_request" event_request csl _ c s refl refl,
  publish_event-IsCounted l "console_authorise" event_authorise csl _ c s refl refl,
  publish_event-IsCounted l "console_start" event_start csl _ c s refl refl,
  publish_event-IsCounted l "console_attach" event_attach csl _ c s refl refl,
  publish_event-IsCounted l "console_terminate" event_terminated csl _ c s refl refl,
)
