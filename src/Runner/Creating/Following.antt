-- ===== src/Runner/Creating/Following.antt =====
-- runner.go: what `Create` has found out about a console that it hands back.
use theatre.Prelude.{◌≡◌, ◌⊎◌, true, false, some, Result, ok, Bool-cases, inl, inr, if◌then◌else◌}
use theatre.Prelude.Exec.{Exec, pure, attempt, ◌>>=◌, >>=-eq-ok}
use theatre.Console.{Console, is_running, is_stopped}
use theatre.Console.Template.{ConsoleTemplate}
use theatre.Runner.{Api, hook_or_default}
use theatre.Runner.Creating.{CreateOptions, request, announce, conclude, create, attach_to}
use theatre.Runner.Attaching.{attach}
use theatre.Runner.Waiting.{wait_for_console, wait_until_ready}
use theatre.Runner.Waiting.Ready.{wait_until_ready-IsReady, IsSeen, HasBinding}
use theatre.Runner.Waiting.Watching.{IsWatch}

module _ {S Raw : Type 0} (k : Api S Raw) where
  attach_to-same :
      (opts : CreateOptions S) (csl c : Console) (s s' : S)
      → attach_to k opts csl s ≡ (ok c, s')
      → csl ≡ c
  unfolding attach_to
  attach_to-same opts csl c s s' h =
      let attaching = attach k (record {
        namespace = csl.metadata.namespace;
        name = csl.metadata.name;
        hook = some (hook_or_default opts.hook);
      }) in
      let (_, _, last) = >>=-eq-ok attaching (λ _. pure csl) s h in cc last

  conclude-same :
      (opts : CreateOptions S) (csl c : Console) (s s' : S)
      → conclude k opts csl s ≡ (ok c, s')
      → csl ≡ c
  unfolding conclude
  conclude-same opts csl c s s' h =
      let ready = (hook_or_default opts.hook).console_ready csl in
      let rest = if opts.attach then attach_to k opts csl else pure csl in
      let (_, _, last) = >>=-eq-ok ready (λ _. rest) s h in
      elim (Bool-cases opts.attach) [
        | inl on ↦ attach_to-same opts csl c (ready s).1 s' (rw on at last)
        | inr off ↦ cc (rw off at last)
      ]

  -- The state in which `Create` begins its second wait: the request, the first wait and what is
  -- announced of it came before.
  abbrev pub before_second_wait : CreateOptions S → ConsoleTemplate → Console → S → S
  before_second_wait opts tpl made s =
      let requested = (request k opts s).1 in
      let (first, waited) = wait_until_ready k made false requested in
      (announce k (hook_or_default opts.hook) tpl opts.command made first waited).1

  module _ (consoles : IsWatch k.until_consoles) (bindings : IsWatch k.until_role_bindings) where
    -- When Create succeeds, a console was made from a template, and the console handed back is one
    -- that a watch of the made one's name saw running or stopped, which began after the request, the
    -- first wait and its announcement; unless it is stopped, a role binding of its name that has its
    -- user was seen by a watch that began in the state that the wait for the console left.
    pub create-IsReady :
        (opts : CreateOptions S) (c : Console) (s s' : S)
        → create k opts s ≡ (ok c, s')
        → (tpl : ConsoleTemplate) × (made : Console) × ((request k opts s).0 ≡ ok (tpl, made))
          × IsSeen k consoles bindings made (before_second_wait opts tpl made s) c
          × ((is_running c ≡ true) ⊎ (is_stopped c ≡ true))
          × ((is_stopped c ≡ true)
              ⊎ HasBinding k consoles bindings c
                  (wait_for_console k made true (before_second_wait opts tpl made s)).1)
    unfolding create
    create-IsReady opts c s s' h =
        let wait_again : Console → Exec S Console =
          λ made. ◌>>=◌ (wait_until_ready k made true) (conclude k opts) in
        let told : ConsoleTemplate → Console → Result Console → Exec S Console = λ tpl made first.
          ◌>>=◌ (announce k (hook_or_default opts.hook) tpl opts.command made first)
            (λ _. wait_again made) in
        let follow_up : ConsoleTemplate × Console → Exec S Console =
          λ (tpl, made). ◌>>=◌ (attempt (wait_until_ready k made false)) (told tpl made) in
        let ((tpl, made), requested, h1) = >>=-eq-ok (request k opts) follow_up s h in
        let s1 = (request k opts s).1 in
        let (first, s2) = wait_until_ready k made false s1 in
        let h2 : told tpl made first s2 ≡ (ok c, s') = h1 in
        let telling = announce k (hook_or_default opts.hook) tpl opts.command made first in
        let (_, _, h3) = >>=-eq-ok telling (λ _. wait_again made) s2 h2 in
        let s3 = (telling s2).1 in
        let (csl, waited, h4) = >>=-eq-ok (wait_until_ready k made true) (conclude k opts) s3 h3 in
        let s4 = (wait_until_ready k made true s3).1 in
        let same = conclude-same opts csl c s4 s' h4 in
        let (seen, ready, bound) =
          wait_until_ready-IsReady k consoles bindings made c true s3 s4 (cc (waited, same)) in
        (tpl, made, requested, seen, ready, bound)
