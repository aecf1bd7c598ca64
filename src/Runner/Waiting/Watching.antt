-- ===== src/Runner/Waiting/Watching.antt =====
-- runner.go: what the documentation of `watchtools.UntilWithSync` promises about a wait. The
-- precondition is asked about the synced store, then the condition about each event, until one is
-- done or fails; the events end when the context does.
use theatre.Prelude.{
  ◌≡◌, refl, ◌∙◌, true, false, ◌⊎◌, inl, inr, none, some, List, [], ◌∷◌, Result, ok, err, Failure,
}
use theatre.Kubernetes.{NamespacedName}
use theatre.Runner.{Check, Delivered, object, Until}

module _ {R : Type 0} where
  -- What comes after one test.
  unfoldable pub next_test : Check × R → (R → Result (Unit {0}) × R) → Result (Unit {0}) × R
  next_test ((done, some e), r) next = (err e, r)
  next_test ((true, none), r) next = (ok tt, r)
  next_test ((false, none), r) next = next r

  module _ {Obj : Type 0} (timeout : Failure) (condition : Delivered Obj → R → Check × R) where
    unfoldable pub follow : List (Delivered Obj) → R → Result (Unit {0}) × R
    unfolding next_test
    follow [] r = (err timeout, r)
    follow (e ∷ events) r = next_test (condition e r) (follow events)

    unfoldable pub synced :
        (List Obj → R → Check × R) → List Obj → List (Delivered Obj) → R → Result (Unit {0}) × R
    unfolding follow
    synced precondition items events r = next_test (precondition items r) (follow events)

-- The promise, for what a watch of a name from a state on finds in the store and is sent.
pub record IsWatch {S Obj R : Type 0} (until : Until S Obj R) : Type 0 where
  pub items : NamespacedName → S → List Obj
  pub events : NamespacedName → S → List (Delivered Obj)
  pub timeout : Failure
  pub runs :
      (n : NamespacedName) (s : S) (precondition : List Obj → R → Check × R)
      (condition : Delivered Obj → R → Check × R) (r : R)
      → ((until n precondition condition (r, s)).0
          ≡ (synced timeout condition precondition (items n s) (events n s) r).0)
        × ((until n precondition condition (r, s)).1.0
            ≡ (synced timeout condition precondition (items n s) (events n s) r).1)

-- An event of a list.
pub data Sent {Obj : Type 0} (e : Delivered Obj) : List (Delivered Obj) → Type 0 where
  now : (events : List (Delivered Obj)) → Sent e (e ∷ events)
  later :
      (first : Delivered Obj) {events : List (Delivered Obj)}
      → Sent e events
      → Sent e (first ∷ events)

-- An object that a watch saw: the first of the store, or one that an event has.
pub data Seen {Obj : Type 0} (items : List Obj) (events : List (Delivered Obj)) (o : Obj)
    : Type 0 where
  stored : (rest : List Obj) → items ≡ o ∷ rest → Seen items events o
  sent : Sent (object o) events → Seen items events o

module _ {R Obj : Type 0} (timeout : Failure) (condition : Delivered Obj → R → Check × R) where
  next_test-ok :
      (answer : Check × R) (next : R → Result (Unit {0}) × R)
      → (next_test answer next).0 ≡ ok tt
      → ((answer.0 ≡ (true, none)) × (answer.1 ≡ (next_test answer next).1))
        ⊎ ((next answer.1).0 ≡ ok tt) × ((next answer.1).1 ≡ (next_test answer next).1)
  unfolding next_test
  next_test-ok ((done, some e), r) next h = cc
  next_test-ok ((true, none), r) next h = inl (refl, refl)
  next_test-ok ((false, none), r) next h = inr (h, refl)

  pub follow-ok :
      (events : List (Delivered Obj)) (r : R)
      → (follow timeout condition events r).0 ≡ ok tt
      → (e : Delivered Obj) × (before : R) × Sent e events
        × ((condition e before).0 ≡ (true, none))
        × ((condition e before).1 ≡ (follow timeout condition events r).1)
  unfolding follow
  follow-ok [] r h = cc
  follow-ok (e ∷ events) r h =
      elim (next_test-ok (condition e r) (follow timeout condition events) h) [
        | inl (done, left) ↦ (e, r, now events, done, left)
        | inr (ok_, left) ↦
            let (e', before, s, done, left') = follow-ok events (condition e r).1 ok_ in
            (e', before, later e s, done, left' ∙ left)
      ]

  -- A wait that ends well ended with a test that was done.
  pub synced-ok :
      (precondition : List Obj → R → Check × R) (items : List Obj) (events : List (Delivered Obj))
      (r : R)
      → (synced timeout condition precondition items events r).0 ≡ ok tt
      → (((precondition items r).0 ≡ (true, none))
          × ((precondition items r).1 ≡ (synced timeout condition precondition items events r).1))
        ⊎ ((e : Delivered Obj) × (before : R) × Sent e events
            × ((condition e before).0 ≡ (true, none))
            × ((condition e before).1 ≡ (synced timeout condition precondition items events r).1))
  unfolding synced
  synced-ok precondition items events r h =
      elim (next_test-ok (precondition items r) (follow timeout condition events) h) [
        | inl here ↦ inl here
        | inr (ok_, left) ↦
            let (e, before, s, done, left') = follow-ok events (precondition items r).1 ok_ in
            inr (e, before, s, done, left' ∙ left)
      ]
