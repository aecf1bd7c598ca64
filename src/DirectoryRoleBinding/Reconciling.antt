-- ===== src/DirectoryRoleBinding/Reconciling.antt =====
-- directoryrolebinding_controller.go: after a successful `ReconcileObject` the role binding of the
-- cluster holds exactly the users that the directories named.
use theatre.Prelude.{
  ℕ, ◌≡◌, refl, map, sym, ◌∙◌, ap, String, true, ◌&&◌, List, [], ◌∷◌, some, Result, ok, err, arith,
  Bool-cases, inl, inr,
}
use theatre.Prelude.Results.{
  wrapped, wrapped-eq-ok, api, not_found, conflict, api_failure, message, wrap, panic, sentinel,
}
use theatre.Prelude.Exec.{
  pure, ◌>>=◌, >>=-eq-ok, wrapping-eq-ok, wrapping-eq-ok_result, wrapping, lift,
}
use theatre.Kubernetes.{NamespacedName, ObjectMeta, Subject, RoleBinding, Client}
use theatre.Rbac.{same_subject, includes_subject, diff}
use theatre.Rbac.Subjects.{diff-eq-nil_iff, includes_subject-cons}
use theatre.Directory
use theatre.Directory.{Directory, DirectoryProvider}
use theatre.Recutil.{DirectoryRoleBinding}
use theatre.Recutil.Converge.{IsStore}
use theatre.DirectoryRoleBinding.{
  resolve, name_of, identifier, is_empty, new_role_binding, bare_metadata, create_role_binding,
  find_role_binding, update_subjects, reconcile_object,
}
use theatre.DirectoryRoleBinding.Resolving.{Expansion, done, native, group, resolve-Expansion}

eq-nil_of_is_empty : (l : List Subject) → is_empty l ≡ true → l ≡ []
eq-nil_of_is_empty [] h = refl
eq-nil_of_is_empty (x ∷ l) h = cc

-- Two lists with no difference either way hold the same subjects.
includes_of_no_diff :
    (xs ys : List Subject) (s : Subject)
    → (is_empty (diff xs ys) && is_empty (diff ys xs)) ≡ true
    → includes_subject ys s ≡ includes_subject xs s
includes_of_no_diff xs ys s h = ground (
  arith,
  (diff-eq-nil_iff xs ys).0 (eq-nil_of_is_empty (diff xs ys) (ground arith)) s,
  (diff-eq-nil_iff ys xs).0 (eq-nil_of_is_empty (diff ys xs) (ground arith)) s,
)

ok-injective : {A : Type 0} {a b : A} → ok a ≡ ok b → a ≡ b
ok-injective h = cc

-- A subject up to its API group, which the API fills in where it is empty.
abbrev pub ungrouped : Subject → Subject
ungrouped s = record s { api_group = "" }

abbrev pub ungrouped_subjects : RoleBinding → List Subject
ungrouped_subjects rb = map ungrouped rb.subjects

same_subject-ungrouped : (x s : Subject) → same_subject (ungrouped x) s ≡ same_subject x s
unfolding same_subject
same_subject-ungrouped x s = refl

-- The inclusion of a subject does not depend on API groups.
includes_subject-ungrouped :
    (xs : List Subject) (s : Subject)
    → includes_subject (map ungrouped xs) s ≡ includes_subject xs s
includes_subject-ungrouped [] s = refl
includes_subject-ungrouped (x ∷ xs) s = ground (
  arith,
  includes_subject-cons x xs s,
  includes_subject-cons (ungrouped x) (map ungrouped xs) s,
  includes_subject-ungrouped xs s,
  same_subject-ungrouped x s,
)

includes_of_ungrouped :
    (xs ys : List Subject) (s : Subject)
    → map ungrouped xs ≡ map ungrouped ys
    → includes_subject xs s ≡ includes_subject ys s
includes_of_ungrouped xs ys s h =
    sym (includes_subject-ungrouped xs s)
    ∙ ap (λ l. includes_subject l s) h
    ∙ includes_subject-ungrouped ys s

module _ {W : Type 0} (c : Client W RoleBinding) (provider : DirectoryProvider W)
    (set_controller_reference : ObjectMeta → ObjectMeta → Result ObjectMeta) where
  -- What the reconciler relies on: the API keeps what is written, up to the API groups of the
  -- subjects, and the client reads it back (a client that reads from a cache, while the cache is up
  -- to date); an owner reference does not change a name; and asking a directory does not change the
  -- cluster.
  pub record IsSound : Type 0 where
    pub store : IsStore c name_of ungrouped_subjects
    pub same_name :
        (owner m m' : ObjectMeta)
        → set_controller_reference owner m ≡ ok m'
        → (m'.name ≡ m.name) × (m'.namespace ≡ m.namespace)
    pub directory_apart :
        (kind name : String) (d : Directory W) (n : NamespacedName) (w : W)
        → Directory.get provider kind ≡ some d
        → c.get n (d name w).1 ≡ c.get n w

  -- The world in which the run expands the subjects: the role binding was found or created.
  abbrev pub world_found : DirectoryRoleBinding → W → W
  world_found drb w =
      (find_role_binding c set_controller_reference drb (c.get (identifier drb) w) w).1

  module _ (sound : IsSound) where
    Expansion_apart :
        {subjects flat : List Subject} {w w' : W} (n : NamespacedName)
        → Expansion provider subjects w flat w'
        → c.get n w' ≡ c.get n w
    Expansion_apart n done = refl
    Expansion_apart n (native h x) = Expansion_apart n x
    Expansion_apart n (group {s = s} {w = w} d h asked x) =
        Expansion_apart n x
        ∙ sym (ap (λ p. c.get n p.1) asked)
        ∙ sound.directory_apart s.kind s.name d n w h

    find_role_binding-ok :
        (drb : DirectoryRoleBinding) (found : Result RoleBinding) (rb : RoleBinding) (w w' : W)
        → c.get (identifier drb) w ≡ found
        → find_role_binding c set_controller_reference drb found w ≡ (ok rb, w')
        → c.get (identifier drb) w' ≡ ok rb
    unfolding find_role_binding create_role_binding
    find_role_binding-ok drb (ok x) rb w w' g e =
        sym (ap (c.get (identifier drb)) (cc e)) ∙ g ∙ cc e
    find_role_binding-ok drb (err (api not_found)) rb w w' g e =
        let owned =
          wrapped "failed to set controller reference"
            (set_controller_reference drb.metadata (bare_metadata drb)) in
        let (metadata, r, e') =
          >>=-eq-ok (lift owned)
            (λ m. wrapping "failed to create RoleBinding" (c.create (new_role_binding drb m))) w
            e in
        let (name, namespace) =
          sound.same_name drb.metadata (bare_metadata drb) metadata (wrapped-eq-ok _ _ r) in
        let created = wrapping-eq-ok _ (c.create (new_role_binding drb metadata)) w e' in
        let (found, _) = sound.store.create_get (new_role_binding drb metadata) rb w w' created in
        ap (λ n. c.get n w') (ground (arith, name, namespace)) ∙ found
    find_role_binding-ok drb (err (api conflict)) rb w w' g e = cc
    find_role_binding-ok drb (err (api (api_failure m))) rb w w' g e = cc
    find_role_binding-ok drb (err (message m)) rb w w' g e = cc
    find_role_binding-ok drb (err (wrap m x)) rb w w' g e = cc
    find_role_binding-ok drb (err (panic m)) rb w w' g e = cc
    find_role_binding-ok drb (err (sentinel m)) rb w w' g e = cc

    update_subjects-ok :
        (n : NamespacedName) (rb : RoleBinding) (subjects : List Subject) (w w' : W)
        → c.get n w ≡ ok rb
        → update_subjects c rb subjects w ≡ (ok tt, w')
        → (rb' : RoleBinding) × (c.get n w' ≡ ok rb')
          × ((s : Subject) → includes_subject rb'.subjects s ≡ includes_subject subjects s)
    unfolding update_subjects
    update_subjects-ok n rb subjects w w' g e =
        elim (Bool-cases
          (is_empty (diff subjects rb.subjects) && is_empty (diff rb.subjects subjects))) [
            | inl settled ↦ (
              rb,
              sym (ap (c.get n) (stays settled)) ∙ g,
              λ s. includes_of_no_diff subjects rb.subjects s settled,
            )
            | inr differs ↦ wrote (rw differs at e)
          ]
      where
        stays :
            (is_empty (diff subjects rb.subjects) && is_empty (diff rb.subjects subjects)) ≡ true
            → w ≡ w'
        stays h = cc (rw h at e)

        wrote :
            ◌>>=◌
                (wrapping "failed to update RoleBinding"
                  (c.update (record rb { subjects = subjects })))
                (λ _. pure (tt {0}))
                w
              ≡ (ok (tt {0}), w')
            → (rb' : RoleBinding) × (c.get n w' ≡ ok rb')
              × ((s : Subject) → includes_subject rb'.subjects s ≡ includes_subject subjects s)
        wrote h =
            let (rb', r, e') =
              >>=-eq-ok
                (wrapping "failed to update RoleBinding"
                  (c.update (record rb { subjects = subjects })))
                (λ _. pure (tt {0})) w h in
            let next : RoleBinding = record rb { subjects = subjects } in
            let t = (c.update next w).1 in
            let (found, same) =
              sound.store.update_get next rb' w t
                (wrapping-eq-ok_result "failed to update RoleBinding" (c.update next) w r) in
            let there : t ≡ w' = ap (λ p. p.1) e' in
            (
              rb',
              sym (ap (c.get n) there)
                  ∙ ap (λ m. c.get m t) (sym (sound.store.get_name n rb w g))
                  ∙ found,
              λ s. includes_of_ungrouped rb'.subjects subjects s same,
            )

    -- When `ReconcileObject` succeeds, its client reads, in the cluster that it leaves, a role
    -- binding with the identifier, whose subjects are, as a set, the expansion of the subjects of
    -- the directory role binding: the subjects of no directory, and the users that the directories
    -- named when this run asked them, after it had found or created the role binding. It is requeued
    -- after the refresh interval.
    pub reconcile_object-Expansion :
        (refresh_interval requeue_after : ℕ) (drb : DirectoryRoleBinding) (w w' : W)
        → reconcile_object c set_controller_reference provider refresh_interval drb w
          ≡ (ok requeue_after, w')
        → (rb : RoleBinding) × (flat : List Subject) × (c.get (identifier drb) w' ≡ ok rb)
          × Expansion provider drb.subjects
              (world_found drb w)
              flat
              (resolve provider drb.subjects (world_found drb w)).1
          × ((s : Subject) → includes_subject rb.subjects s ≡ includes_subject flat s)
          × (requeue_after ≡ refresh_interval)
    unfolding reconcile_object
    reconcile_object-Expansion refresh_interval requeue_after drb w w' e =
        let finish = λ (rb : RoleBinding) (subjects : List Subject).
          ◌>>=◌ (update_subjects c rb subjects) (λ _. pure refresh_interval) in
        let expand = wrapping "failed to resolve subjects" (resolve provider drb.subjects) in
        let find = λ (w : W).
          find_role_binding c set_controller_reference drb (c.get (identifier drb) w) w in
        let (rb, r₁, e₁) = >>=-eq-ok find (λ rb. ◌>>=◌ expand (finish rb)) w e in
        let w₁ = (find w).1 in
        let (subjects, r₂, e₂) = >>=-eq-ok expand (finish rb) w₁ e₁ in
        let w₂ = (expand w₁).1 in
        let (_, r₃, e₃) =
          >>=-eq-ok (update_subjects c rb subjects) (λ _. pure refresh_interval) w₂ e₂ in
        let there : (update_subjects c rb subjects w₂).1 ≡ w' = ap (λ p. p.1) e₃ in
        let found =
          find_role_binding-ok drb (c.get (identifier drb) w) rb w w₁ refl (ap (λ a. (a, w₁)) r₁) in
        let (flat, x, same) = resolve-Expansion provider drb.subjects subjects w₁ w₂ (
          wrapping-eq-ok_result "failed to resolve subjects" (resolve provider drb.subjects) w₁
            r₂) in
        let (rb', got, equal) =
          update_subjects-ok (identifier drb) rb subjects w₂ w'
            (Expansion_apart (identifier drb) x ∙ found) (λ i. (r₃ i, there i)) in
        (rb', flat, got, x, λ s. equal s ∙ same s, sym (ok-injective (ap (λ p. p.0) e₃)))

module _ {W : Type 0} (c : Client W RoleBinding) (provider : DirectoryProvider W)
    (set_controller_reference : ObjectMeta → ObjectMeta → Result ObjectMeta) where
  is_empty-diff :
      (xs ys : List Subject)
      → ((s : Subject) → includes_subject xs s ≡ includes_subject ys s)
      → is_empty (diff xs ys) ≡ true
  is_empty-diff xs ys same = ap is_empty ((diff-eq-nil_iff xs ys).1 (λ s h. sym (same s) ∙ h))

  update_subjects_settled :
      (rb : RoleBinding) (subjects : List Subject) (w : W)
      → ((s : Subject) → includes_subject rb.subjects s ≡ includes_subject subjects s)
      → update_subjects c rb subjects w ≡ (ok tt, w)
  unfolding update_subjects
  update_subjects_settled rb subjects w same =
      rw
        (
          is_empty-diff subjects rb.subjects (λ s. sym (same s)),
          is_empty-diff rb.subjects subjects same,
        )
        refl

  -- When the role binding that is there already has, as a set, the subjects that the expansion gives,
  -- `ReconcileObject` succeeds and writes nothing: the state is as the directories left it.
  pub reconcile_object_settled :
      (refresh_interval : ℕ) (drb : DirectoryRoleBinding) (rb : RoleBinding)
      (subjects : List Subject) (w w' : W)
      → c.get (identifier drb) w ≡ ok rb
      → resolve provider drb.subjects w ≡ (ok subjects, w')
      → ((s : Subject) → includes_subject rb.subjects s ≡ includes_subject subjects s)
      → reconcile_object c set_controller_reference provider refresh_interval drb w
        ≡ (ok refresh_interval, w')
  unfolding reconcile_object find_role_binding
  reconcile_object_settled refresh_interval drb rb subjects w w' found resolved same =
      rw (found, find_role_binding, resolved, update_subjects_settled rb subjects w' same) refl
