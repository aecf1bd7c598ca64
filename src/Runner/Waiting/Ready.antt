-- ===== src/Runner/Waiting/Ready.antt =====
-- runner.go: what a console that `WaitUntilReady` hands back is like.
use theatre.Prelude.{
  ◌≡◌, refl, ap, ◌∙◌, sym, subst, Bool, true, false, ◌⊎◌, inl, inr, Option, none, some, List, [],
  ◌∷◌, Result, ok, err, arith, Bool-cases,
}
use theatre.Prelude.Exec.{Exec, pure, lift, ◌>>=◌, >>=-eq-ok}
use theatre.Kubernetes.{RoleBinding}
use theatre.Console.{Console, is_running, is_stopped, phase_is, dereference}
use theatre.Runner.{Api, Delivered, object, unexpected, check_console_state, rb_has_subject}
use theatre.Runner.Waiting.{
  key_of, check_converted, console_precondition, console_condition, binding_precondition,
  binding_condition, taken, without_result, wait_for_console, wait_for_role_binding,
  wait_until_ready,
}
use theatre.Runner.Waiting.Watching.{IsWatch, synced, synced-ok, Seen, stored, sent, Sent}

abbrev IsReady : Console → Type 0
IsReady c = (is_running c ≡ true) ⊎ (is_stopped c ≡ true)

check_console_state-done :
    (c : Console) (wait : Bool) → check_console_state c wait ≡ (true, none) → IsReady c
unfolding check_console_state is_running is_stopped phase_is
check_console_state-done c wait h = ground arith

check_converted-done :
    (wait : Bool) (found : Result Console) (before : Option Console)
    → (check_converted wait found before).0 ≡ (true, none)
    → (c : Console) × (found ≡ ok c) × ((check_converted wait found before).1 ≡ some c) × IsReady c
unfolding check_converted
check_converted-done wait (ok c) before h =
    (c, refl, ground arith, check_console_state-done c wait h)
check_converted-done wait (err e) before h = cc

module _ {S Raw : Type 0} (k : Api S Raw) (consoles : IsWatch k.until_consoles)
    (bindings : IsWatch k.until_role_bindings) where
  -- The unstructured object that a console was read from, as the watch of its name saw it.
  abbrev pub IsSeen : Console → S → Console → Type 0
  IsSeen created s c =
      (raw : Raw) × Seen (consoles.items (key_of created) s) (consoles.events (key_of created) s)
        raw
      × (k.from_unstructured raw ≡ ok c)

  item-done :
      (created : Console) (s : S) (wait : Bool) (items : List Raw)
      → consoles.items (key_of created) s ≡ items
      → (console_precondition k wait items none).0 ≡ (true, none)
      → (c : Console) × IsSeen created s c
        × IsReady c
        × ((console_precondition k wait items none).1 ≡ some c)
  unfolding console_precondition
  item-done created s wait [] e h = cc
  item-done created s wait (raw ∷ rest) e h =
      let (c, found, left, ready) = check_converted-done wait (k.from_unstructured raw) none h in
      (c, (raw, stored rest e, found), ready, left)

  event-done :
      (created : Console) (s : S) (wait : Bool) (e : Delivered Raw) (before : Option Console)
      → Sent e (consoles.events (key_of created) s)
      → (console_condition k wait e before).0 ≡ (true, none)
      → (c : Console) × IsSeen created s c
        × IsReady c
        × ((console_condition k wait e before).1 ≡ some c)
  unfolding console_condition
  event-done created s wait (unexpected t) before sent_ h = cc
  event-done created s wait (object raw) before sent_ h =
      let (c, found, left, ready) = check_converted-done wait (k.from_unstructured raw) before h in
      (c, (raw, sent sent_, found), ready, left)

  taken-ok :
      (answer : Result (Unit {0}) × (Option Console × S)) (o : Option Console) (s' : S)
      → taken k answer ≡ (ok o, s')
      → (answer.0 ≡ ok tt) × (answer.1.0 ≡ o)
  unfolding taken
  taken-ok (ok tt, (result, s)) o s' h = (refl, cc)
  taken-ok (err e, (result, s)) o s' h = cc

  -- A wait for a console that succeeds has seen it in a phase that can be attached to.
  wait_for_console-IsReady :
      (created c : Console) (wait : Bool) (s s' : S)
      → wait_for_console k created wait s ≡ (ok (some c), s')
      → IsSeen created s c × IsReady c
  unfolding wait_for_console synced
  wait_for_console-IsReady created c wait s s' h =
      let n = key_of created in
      let pre = console_precondition k wait in
      let cond = console_condition k wait in
      let (answered, left) = taken-ok (k.until_consoles n pre cond (none, s)) (some c) s' h in
      let (same, kept) = consoles.runs n s pre cond none in
      elim (synced-ok consoles.timeout cond pre (consoles.items n s) (consoles.events n s) none
        (sym same ∙ answered)) [
          | inl (done, last) ↦
              let (d, seen, ready, found) =
                item-done created s wait (consoles.items n s) refl done in
              let e : d ≡ c = cc (found, last, kept, left) in
              subst (λ x. IsSeen created s x × IsReady x) e (seen, ready)
          | inr (ev, before, sent_, done, last) ↦
              let (d, seen, ready, found) = event-done created s wait ev before sent_ done in
              let e : d ≡ c = cc (found, last, kept, left) in
              subst (λ x. IsSeen created s x × IsReady x) e (seen, ready)
        ]

  -- A role binding that the watch of a console's name saw and that names the console's user.
  abbrev pub HasBinding : Console → S → Type 0
  HasBinding c s =
      (rb : RoleBinding) × Seen (bindings.items (key_of c) s) (bindings.events (key_of c) s) rb
      × (rb_has_subject rb c.spec.user ≡ true)

  bound-item :
      (c : Console) (s : S) (items : List RoleBinding)
      → bindings.items (key_of c) s ≡ items
      → (binding_precondition k c.spec.user items tt).0 ≡ (true, none)
      → HasBinding c s
  unfolding binding_precondition
  bound-item c s [] e h = cc
  bound-item c s (rb ∷ rest) e h = (rb, stored rest e, ap (λ p. p.0) h)

  bound-event :
      (c : Console) (s : S) (e : Delivered RoleBinding)
      → Sent e (bindings.events (key_of c) s)
      → (binding_condition k c.spec.user e tt).0 ≡ (true, none)
      → HasBinding c s
  unfolding binding_condition
  bound-event c s (unexpected t) sent_ h = cc
  bound-event c s (object rb) sent_ h = (rb, sent sent_, ap (λ p. p.0) h)

  wait_for_role_binding-HasBinding :
      (c : Console) (s s' : S)
      → is_stopped c ≡ false
      → wait_for_role_binding k c s ≡ (ok tt, s')
      → HasBinding c s
  unfolding wait_for_role_binding without_result
  wait_for_role_binding-HasBinding c s s' going h =
      let n = key_of c in
      let pre = binding_precondition k c.spec.user in
      let cond = binding_condition k c.spec.user in
      let answered : (k.until_role_bindings n pre cond (tt, s)).0 ≡ ok tt = ground (arith, h) in
      let (same, _) = bindings.runs n s pre cond tt in
      elim (synced-ok bindings.timeout cond pre (bindings.items n s) (bindings.events n s) tt
        (sym same ∙ answered)) [
          | inl (done, _) ↦ bound-item c s (bindings.items n s) refl done
          | inr (ev, _, sent_, done, _) ↦ bound-event c s ev sent_ done
        ]

  dereference-ok :
      (found : Option Console) (c : Console) → dereference found ≡ ok c → found ≡ some c
  dereference-ok none c h = cc
  dereference-ok (some d) c h = cc

  -- A console that WaitUntilReady hands back was seen by the watch that starts it, is running or
  -- stopped, and unless it is stopped a role binding of its name that has its user was seen by the
  -- watch that starts in the state that the wait for the console leaves.
  pub wait_until_ready-IsReady :
      (created c : Console) (wait : Bool) (s s' : S)
      → wait_until_ready k created wait s ≡ (ok c, s')
      → IsSeen created s c
        × ((is_running c ≡ true) ⊎ (is_stopped c ≡ true))
        × ((is_stopped c ≡ true) ⊎ HasBinding c (wait_for_console k created wait s).1)
  unfolding wait_until_ready
  wait_until_ready-IsReady created c wait s s' h =
      let first = wait_for_console k created wait in
      let bind : Console → Exec S Console = λ d. ◌>>=◌ (wait_for_role_binding k d) (λ _. pure d) in
      let (found, e1, h1) = >>=-eq-ok first (λ o. ◌>>=◌ (lift (dereference o)) bind) s h in
      let between = (first s).1 in
      let (d, e2, h2) = >>=-eq-ok (lift (dereference found)) bind between h1 in
      let (_, e3, h3) = >>=-eq-ok (wait_for_role_binding k d) (λ _. pure d) between h2 in
      let same : d ≡ c = cc h3 in
      let known : found ≡ some d = dereference-ok found d e2 in
      let (seen, ready) = wait_for_console-IsReady created d wait s between (cc (e1, known)) in
      let bound : (is_stopped d ≡ true) ⊎ HasBinding d between = elim (Bool-cases (is_stopped d)) [
        | inl over ↦ inl over
        | inr going ↦ inr (
            wait_for_role_binding-HasBinding d between (wait_for_role_binding k d between).1 going
              (ground (arith, e3)))
      ] in
      subst
        (λ x.
          IsSeen created s x
          × ((is_running x ≡ true) ⊎ (is_stopped x ≡ true))
          × ((is_stopped x ≡ true) ⊎ HasBinding x between))
        same (seen, ready, bound)
