-- ===== src/Runner/Waiting/First.antt =====
-- runner.go: a wait for a console ends at the first console of the watch that decides it.
use theatre.Prelude.{
  ◌≡◌, ap, ◌∙◌, Bool, true, false, not, ◌||◌, ◌&&◌, Option, none, some, List, [], ◌∷◌, map, Result,
  ok, err, arith, if◌then◌else◌,
}
use theatre.Console.{Console, is_running, is_stopped, is_pending_authorisation, phase_is}
use theatre.Runner.{Api, object, check_console_state, err_console_pending_authorisation}
use theatre.Runner.Waiting.{
  key_of, check_converted, console_precondition, console_condition, taken, wait_for_console,
}
use theatre.Runner.Waiting.Watching.{IsWatch, synced, follow, next_test}

-- The first of a list that passes a test.
pub data FirstWith (p : Console → Bool) (c : Console) : List Console → Type 0 where
  here : (rest : List Console) → p c ≡ true → FirstWith p c (c ∷ rest)
  there :
      (d : Console) {rest : List Console}
      → p d ≡ false
      → FirstWith p c rest
      → FirstWith p c (d ∷ rest)

-- The consoles that unstructured objects are read as.
pub data Reads {S Raw : Type 0} (k : Api S Raw) : List Raw → List Console → Type 0 where
  nothing : Reads k [] []
  read :
      (raw : Raw) (c : Console) {raws : List Raw} {cs : List Console}
      → k.from_unstructured raw ≡ ok c
      → Reads k raws cs
      → Reads k (raw ∷ raws) (c ∷ cs)

-- What a watch sees: the first object of the store, then those of the events.
abbrev pub seen : {Raw : Type 0} → List Raw → List Raw → List Raw
seen [] raws = raws
seen (raw ∷ _) raws = raw ∷ raws

-- Whether a console ends the wait: it can be attached to, or it needs an authorisation that the
-- caller does not wait for.
abbrev pub decides : Bool → Console → Bool
decides wait c = is_running c || is_stopped c || (not wait && is_pending_authorisation c)

-- What the wait then answers.
abbrev pub decision : Console → Result (Option Console)
decision c =
    if is_pending_authorisation c then err err_console_pending_authorisation else ok (some c)

abbrev outcome : Console → Result (Unit {0})
outcome c = if is_pending_authorisation c then err err_console_pending_authorisation else ok tt

next_test-decides :
    (wait : Bool) (c : Console) (before : Option Console)
    (next : Option Console → Result (Unit {0}) × Option Console)
    → decides wait c ≡ true
    → next_test (check_converted wait (ok c) before) next ≡ (outcome c, some c)
unfolding next_test check_converted check_console_state is_running is_stopped
    is_pending_authorisation phase_is
next_test-decides wait c before next h = ground arith

next_test-waits :
    (wait : Bool) (c : Console) (before : Option Console)
    (next : Option Console → Result (Unit {0}) × Option Console)
    → decides wait c ≡ false
    → next_test (check_converted wait (ok c) before) next ≡ next before
unfolding next_test check_converted check_console_state is_running is_stopped
    is_pending_authorisation phase_is
next_test-waits wait c before next h = ground arith

module _ {S Raw : Type 0} (k : Api S Raw) (consoles : IsWatch k.until_consoles) where
  follow-FirstWith :
      (wait : Bool) {raws : List Raw} {cs : List Console} (c : Console) (before : Option Console)
      → Reads k raws cs
      → FirstWith (decides wait) c cs
      → follow consoles.timeout (console_condition k wait) (map object raws) before
        ≡ (outcome c, some c)
  unfolding follow console_condition
  follow-FirstWith wait c before nothing first = elim first [ ]
  follow-FirstWith wait c before (read raw d e reads) (here rest h) =
      rw e (next_test-decides wait c before _ h)
  follow-FirstWith wait c before (read raw d e reads) (there d' h first) =
      rw e (next_test-waits wait d' before _ h ∙ follow-FirstWith wait c before reads first)

  synced-FirstWith :
      (wait : Bool) (items raws : List Raw) {cs : List Console} (c : Console)
      → Reads k (seen items raws) cs
      → FirstWith (decides wait) c cs
      → synced consoles.timeout
          (console_condition k wait)
          (console_precondition k wait)
          items
          (map object raws)
          none
        ≡ (outcome c, some c)
  unfolding synced console_precondition next_test
  synced-FirstWith wait [] raws c reads first = follow-FirstWith wait c none reads first
  synced-FirstWith wait (raw ∷ items) raws c (read _ d e reads) (here rest h) =
      rw e (next_test-decides wait c none _ h)
  synced-FirstWith wait (raw ∷ items) raws c (read _ d e reads) (there d' h first) =
      rw e (next_test-waits wait d' none _ h ∙ follow-FirstWith wait c none reads first)

  taken-outcome :
      (answer : Result (Unit {0}) × (Option Console × S)) (c : Console)
      → answer.0 ≡ outcome c
      → answer.1.0 ≡ some c
      → (taken k answer).0 ≡ decision c
  unfolding taken is_pending_authorisation phase_is
  taken-outcome (ok tt, (result, s)) c h left = ground arith
  taken-outcome (err e, (result, s)) c h left = ground arith

  -- When the objects that the watch sees, the first of the store and then those of the events, read
  -- as consoles of which one decides, the wait ends with the first of these: it answers that console,
  -- or the error of a pending authorisation if the console is in that phase.
  pub wait_for_console-FirstWith :
      (created : Console) (wait : Bool) (s : S) (raws : List Raw) (cs : List Console) (c : Console)
      → consoles.events (key_of created) s ≡ map object raws
      → Reads k (seen (consoles.items (key_of created) s) raws) cs
      → FirstWith (decides wait) c cs
      → (wait_for_console k created wait s).0 ≡ decision c
  unfolding wait_for_console taken
  wait_for_console-FirstWith created wait s raws cs c sent reads first =
      let n = key_of created in
      let pre = console_precondition k wait in
      let cond = console_condition k wait in
      let (same, kept) = consoles.runs n s pre cond none in
      let run =
        ap (λ events. synced consoles.timeout cond pre (consoles.items n s) events none) sent
        ∙ synced-FirstWith wait (consoles.items n s) raws c reads first in
      taken-outcome (k.until_consoles n pre cond (none, s)) c (same ∙ ap (λ p. p.0) run)
        (kept ∙ ap (λ p. p.1) run)
