-- ===== src/DirectoryRoleBinding/Resolving.antt =====
-- directoryrolebinding_controller.go: `resolve` expands the groups, and only the groups.
use theatre.Prelude.{
  ◌≡◌, refl, sym, ◌∙◌, subst, String, ◌||◌, List, [], ◌∷◌, ◌++◌, none, some, Result, ok, err, arith,
  if◌then◌else◌, Option-cases, inl, inr,
}
use theatre.Prelude.Exec.{pure, ◌>>=◌, >>=-eq-ok}
use theatre.Kubernetes.{Subject}
use theatre.Rbac.{includes_subject}
use theatre.Rbac.Subjects.{includes_subject-cons, includes_subject_congr, includes_subject-nil}
use theatre.Directory
use theatre.Directory.{Directory, DirectoryProvider}
use theatre.DirectoryRoleBinding.{add_members, user_subjects, members_of, resolve_from, resolve}

module _ {W : Type 0} (provider : DirectoryProvider W) where
  -- `Expansion subjects w flat w'`: `flat` lists the subjects of no directory as they are and, in
  -- place of each of the others, the users that its directory named at the time it was asked.
  pub data Expansion : List Subject → W → List Subject → W → Type 0 where
    done : {w : W} → Expansion [] w [] w
    native :
        {s : Subject} {rest flat : List Subject} {w w' : W}
        → Directory.get provider s.kind ≡ none
        → Expansion rest w flat w'
        → Expansion (s ∷ rest) w (s ∷ flat) w'
    group :
        {s : Subject} {rest flat : List Subject} {members : List String} {w w' w'' : W}
        (d : Directory W)
        → Directory.get provider s.kind ≡ some d
        → d s.name w ≡ (ok members, w')
        → Expansion rest w' flat w''
        → Expansion (s ∷ rest) w (user_subjects members ++ flat) w''

pub includes_subject-append :
    (xs ys : List Subject) (s : Subject)
    → includes_subject (xs ++ ys) s ≡ (includes_subject xs s || includes_subject ys s)
includes_subject-append [] ys s = ground (arith, includes_subject-nil s)
includes_subject-append (x ∷ xs) ys s = ground (
  arith,
  includes_subject-cons x xs s,
  includes_subject-cons x (xs ++ ys) s,
  includes_subject-append xs ys s,
)

-- The inner loop adds the members to the set.
includes_subject-add_members :
    (out members : List Subject) (s : Subject)
    → includes_subject (add_members out members) s
      ≡ (includes_subject out s || includes_subject members s)
unfolding add_members
includes_subject-add_members out [] s = ground (arith, includes_subject-nil s)
includes_subject-add_members out (m ∷ ms) s = ground (
  arith,
  includes_subject-cons m ms s,
  includes_subject-cons m [] s,
  includes_subject-nil s,
  includes_subject-append out (m ∷ []) s,
  includes_subject_congr out m s,
  includes_subject-add_members (if includes_subject out m then out else out ++ m ∷ []) ms s,
)

module _ {W : Type 0} (provider : DirectoryProvider W) where
  -- The expansion that a run of the loop stands for, and the set that it returns.
  abbrev Expanded : List Subject → List Subject → List Subject → W → W → Type 0
  Expanded out subjects out' w w' =
      (flat : List Subject) × Expansion provider subjects w flat w'
      × ((s : Subject)
          → includes_subject out' s ≡ (includes_subject out s || includes_subject flat s))

  resolve_from-nil : (out : List Subject) (w : W) → resolve_from provider out [] w ≡ (ok out, w)
  unfolding resolve_from
  resolve_from-nil out w = refl

  resolve_from-native :
      (out rest : List Subject) (s : Subject) (w : W)
      → Directory.get provider s.kind ≡ none
      → resolve_from provider out (s ∷ rest) w ≡ resolve_from provider (out ++ s ∷ []) rest w
  unfolding resolve_from
  resolve_from-native out rest s w e = rw (e, resolve_from) refl

  resolve_from-group :
      (out rest : List Subject) (s : Subject) (d : Directory W) (w : W)
      → Directory.get provider s.kind ≡ some d
      → resolve_from provider out (s ∷ rest) w
        ≡ ◌>>=◌
            (members_of d s.name)
            (λ members. resolve_from provider (add_members out members) rest)
            w
  unfolding resolve_from
  resolve_from-group out rest s d w e = rw (e, resolve_from) refl

  members_of-eq-ok :
      (d : Directory W) (name : String) (subjects : List Subject) (w : W)
      → (members_of d name w).0 ≡ ok subjects
      → (members : List String) × (d name w ≡ (ok members, (members_of d name w).1))
        × (subjects ≡ user_subjects members)
  unfolding members_of
  members_of-eq-ok d name subjects w e = go (d name w) e
    where
      go :
          (answer : Result (List String) × W)
          → (◌>>=◌ (λ (_ : W). answer) (λ members. pure (user_subjects members)) w).0 ≡ ok subjects
          → (members : List String) × (answer ≡ (
            ok members,
            (◌>>=◌ (λ (_ : W). answer) (λ members. pure (user_subjects members)) w).1,
          ))
            × (subjects ≡ user_subjects members)
      go (ok members, w') h = (members, refl, cc)
      go (err x, w') h = cc

  resolve_from-Expanded :
      (out subjects out' : List Subject) (w w' : W)
      → resolve_from provider out subjects w ≡ (ok out', w')
      → Expanded out subjects out' w w'
  resolve_from-Expanded out [] out' w w' e =
      let stays : w ≡ w' = cc (resolve_from-nil out w, e) in
      let same : out ≡ out' = cc (resolve_from-nil out w, e) in
      (
        [],
        subst (Expansion provider [] w []) stays done,
        λ s. ground (arith, same, includes_subject-nil s),
      )
  resolve_from-Expanded out (s ∷ rest) out' w w' e =
      elim (Option-cases (Directory.get provider s.kind)) [
        | inl none_ ↦
            let (flat, x, h) =
              resolve_from-Expanded (out ++ s ∷ []) rest out' w w'
                (sym (resolve_from-native out rest s w none_) ∙ e) in
            (
              s ∷ flat,
              native none_ x,
              λ t. ground (
                arith,
                h t,
                includes_subject-append out (s ∷ []) t,
                includes_subject-cons s [] t,
                includes_subject-nil t,
                includes_subject-cons s flat t,
              ),
            )
        | inr (d, found) ↦
            let (subjects, r, e') =
              >>=-eq-ok (members_of d s.name)
                (λ members. resolve_from provider (add_members out members) rest) w
                (sym (resolve_from-group out rest s d w found) ∙ e) in
            let (members, asked, same) = members_of-eq-ok d s.name subjects w r in
            let (flat, x, h) =
              resolve_from-Expanded (add_members out subjects) rest out' (members_of d s.name w).1
                w' e' in
            (
              user_subjects members ++ flat,
              group d found asked x,
              λ t. ground (
                arith,
                h t,
                same,
                includes_subject-append (user_subjects members) flat t,
                includes_subject-add_members out subjects t,
              ),
            )
      ]

  -- When `resolve` succeeds, what it returns holds exactly the subjects of the expansion.
  pub resolve-Expansion :
      (subjects out : List Subject) (w w' : W)
      → resolve provider subjects w ≡ (ok out, w')
      → (flat : List Subject) × Expansion provider subjects w flat w'
        × ((s : Subject) → includes_subject out s ≡ includes_subject flat s)
  unfolding resolve
  resolve-Expansion subjects out w w' e =
      let (flat, x, h) = resolve_from-Expanded [] subjects out w w' e in
      (flat, x, λ s. ground (arith, h s, includes_subject-nil s))
