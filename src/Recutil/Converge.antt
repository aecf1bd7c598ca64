-- ===== src/Recutil/Converge.antt =====
-- pkg/recutil/reconcile.go: what `CreateOrUpdate` promises, for any kind of object, from what the
-- API documents and from two facts about the diff function.
use theatre.Prelude.{◌≡◌, refl, sym, ◌∙◌, ap, Result, ok, err, arith}
use theatre.Prelude.Exec.{Exec, pure, ◌>>=◌, >>=-eq-ok}
use theatre.Kubernetes.{NamespacedName, Client}
use theatre.Recutil.{
  Outcome, create, update, unchanged, error, DiffFunc, submit, after_get, create_or_update,
}
use theatre.Prelude.Results.{api, not_found, conflict, api_failure, message, wrap, panic, sentinel}

-- What the API documents of a write that succeeds: a later read of the name, through a client whose
-- cache, if it has one, has the write, finds the stored object, which carries the submitted content.
pub record IsStore {S Obj V : Type 0} (c : Client S Obj) (name_of : Obj → NamespacedName)
    (content : Obj → V) : Type 0 where
  pub create_get :
      (o stored : Obj) (s s' : S)
      → c.create o s ≡ (ok stored, s')
      → (c.get (name_of o) s' ≡ ok stored) × (content stored ≡ content o)
  pub update_get :
      (o stored : Obj) (s s' : S)
      → c.update o s ≡ (ok stored, s')
      → (c.get (name_of o) s' ≡ ok stored) × (content stored ≡ content o)
  pub get_name : (n : NamespacedName) (o : Obj) (s : S) → c.get n s ≡ ok o → name_of o ≡ n

-- What a diff function owes: it brings the content to the expected one, keeps the name, asks for no
-- operation when there is nothing to change, and leaves the object alone when it asks for none.
pub record IsDiff {Obj V : Type 0} (diff_func : DiffFunc Obj) (name_of : Obj → NamespacedName)
    (content : Obj → V) : Type 0 where
  pub reaches :
      (expected existing : Obj) → content (diff_func expected existing).0 ≡ content expected
  pub keeps_name :
      (expected existing : Obj) → name_of (diff_func expected existing).0 ≡ name_of existing
  pub settled :
      (expected existing : Obj)
      → content existing ≡ content expected
      → diff_func expected existing ≡ (existing, unchanged)
  pub untouched :
      (expected existing : Obj)
      → (diff_func expected existing).1 ≡ unchanged
      → (diff_func expected existing).0 ≡ existing

abbrev hand_back : {S Obj : Type 0} → Outcome → Obj → Exec S (Outcome × Obj)
hand_back tag stored = pure (tag, stored)

-- A write whose object is handed back with the outcome.
written :
    {S Obj : Type 0} (m : Exec S Obj) (tag op : Outcome) (o : Obj) (s s' : S)
    → ◌>>=◌ m (hand_back tag) s ≡ (ok (op, o), s')
    → (m s ≡ (ok o, s')) × (op ≡ tag)
written m tag op o s s' e =
    let (stored, r, e') = >>=-eq-ok m (hand_back tag) s e in
    (ground (arith, r, e'), ground (arith, e'))

module _ {S Obj V : Type 0} (c : Client S Obj) (name_of : Obj → NamespacedName) (content : Obj → V)
    (store : IsStore c name_of content) (diff_func : DiffFunc Obj)
    (good : IsDiff diff_func name_of content) where
  -- What holds of the cluster and of the object handed back after a success.
  abbrev Reached : Obj → Obj → S → Type 0
  Reached expected o s' = (c.get (name_of expected) s' ≡ ok o) × (content o ≡ content expected)

  submit-Reached :
      (expected existing changed : Obj) (asked op : Outcome) (o : Obj) (s s' : S)
      → c.get (name_of expected) s ≡ ok existing
      → diff_func expected existing ≡ (changed, asked)
      → submit c (changed, asked) s ≡ (ok (op, o), s')
      → Reached expected o s'
  unfolding submit
  submit-Reached expected existing changed update op o s s' g d e =
      let (w, _) = written (c.update changed) update op o s s' e in
      let (found, same) = store.update_get changed o s s' w in
      let named : name_of changed ≡ name_of expected =
        ap name_of (sym (ap (λ p. p.0) d))
        ∙ good.keeps_name expected existing
        ∙ store.get_name (name_of expected) existing s g in
      (
        rw (← named) found,
        same ∙ ap content (sym (ap (λ p. p.0) d)) ∙ good.reaches expected existing,
      )
  submit-Reached expected existing changed unchanged op o s s' g d e =
      let kept = good.untouched expected existing (ap (λ p. p.1) d) in
      let here : changed ≡ existing = sym (ap (λ p. p.0) d) ∙ kept in
      let given : changed ≡ o = cc e in
      let stays : s ≡ s' = cc e in
      (
        rw (← stays, ← given, here) g,
        ap content (sym given ∙ here ∙ sym kept) ∙ good.reaches expected existing,
      )
  submit-Reached expected existing changed create op o s s' g d e = cc
  submit-Reached expected existing changed error op o s s' g d e = cc

  after_get-Reached :
      (expected : Obj) (found : Result Obj) (op : Outcome) (o : Obj) (s s' : S)
      → c.get (name_of expected) s ≡ found
      → after_get c diff_func expected found s ≡ (ok (op, o), s')
      → Reached expected o s'
  unfolding after_get
  after_get-Reached expected (ok existing) op o s s' g e =
      submit-Reached expected existing (diff_func expected existing).0
        (diff_func expected existing).1 op o s s' g refl e
  after_get-Reached expected (err (api not_found)) op o s s' g e =
      let (w, _) = written (c.create expected) create op o s s' e in
      store.create_get expected o s s' w
  after_get-Reached expected (err (api conflict)) op o s s' g e = cc
  after_get-Reached expected (err (api (api_failure m))) op o s s' g e = cc
  after_get-Reached expected (err (message m)) op o s s' g e = cc
  after_get-Reached expected (err (wrap m x)) op o s s' g e = cc
  after_get-Reached expected (err (panic m)) op o s s' g e = cc
  after_get-Reached expected (err (sentinel m)) op o s s' g e = cc

  -- When `CreateOrUpdate` succeeds, the cluster holds under the expected name the object that is
  -- handed back, and its content is the expected one, whether it was created, updated or left alone.
  pub create_or_update_converges :
      (expected : Obj) (op : Outcome) (o : Obj) (s s' : S)
      → create_or_update c name_of diff_func expected s ≡ (ok (op, o), s')
      → (c.get (name_of expected) s' ≡ ok o) × (content o ≡ content expected)
  unfolding create_or_update
  create_or_update_converges expected op o s s' e =
      after_get-Reached expected (c.get (name_of expected) s) op o s s' refl e

  -- A second call right after it finds nothing to do: it writes nothing and hands back the same
  -- object.
  pub create_or_update_idempotent :
      (expected : Obj) (op : Outcome) (o : Obj) (s s' : S)
      → create_or_update c name_of diff_func expected s ≡ (ok (op, o), s')
      → create_or_update c name_of diff_func expected s' ≡ (ok (unchanged, o), s')
  create_or_update_idempotent expected op o s s' e =
      let (found, same) = create_or_update_converges expected op o s s' e in
      unfold create_or_update after_get submit in rw (found, good.settled expected o same) refl
