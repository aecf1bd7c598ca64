-- ===== src/Rbac/Subjects.antt =====
-- pkg/rbac/subjects.go: `Diff` is the difference of sets, where a subject stands for its kind, name
-- and namespace.
use theatre.Prelude.{◌≡◌, refl, ◌↔◌, true, false, not, ◌&&◌, ◌||◌, List, [], ◌∷◌, arith, eq_iff, ap}
use theatre.Kubernetes.{Subject}
use theatre.Rbac.{same_subject, includes_subject, diff}

pub same_subject_refl : (s : Subject) → same_subject s s ≡ true
unfolding same_subject
same_subject_refl s =
    ground (arith, eq_iff s.kind s.kind, eq_iff s.name s.name, eq_iff s.namespace s.namespace)

-- What the comparison says.
pub same_subject_iff :
    (a b : Subject)
    → (same_subject a b ≡ true)
      ↔ ((a.kind ≡ b.kind) × (a.name ≡ b.name) × (a.namespace ≡ b.namespace))
unfolding same_subject
same_subject_iff a b =
    ground (arith, eq_iff a.kind b.kind, eq_iff a.name b.name, eq_iff a.namespace b.namespace)

-- Two subjects that are the same are included in the same lists.
pub includes_subject_congr :
    (ss : List Subject) (a b : Subject)
    → same_subject a b ≡ true
    → includes_subject ss a ≡ includes_subject ss b
unfolding includes_subject same_subject
includes_subject_congr [] a b h = refl
includes_subject_congr (e ∷ ss) a b h =
    let (k, n, ns) = (same_subject_iff a b).0 h in rw (includes_subject_congr ss a b h, k, n, ns)

pub includes_subject-cons :
    (x : Subject) (ss : List Subject) (s : Subject)
    → includes_subject (x ∷ ss) s ≡ (same_subject x s || includes_subject ss s)
unfolding includes_subject
includes_subject-cons x ss s = refl

pub includes_subject-nil : (s : Subject) → includes_subject [] s ≡ false
unfolding includes_subject
includes_subject-nil s = refl

-- A subject is in the difference exactly when it is in the first list and not in the second.
pub includes_subject-diff :
    (s1 s2 : List Subject) (s : Subject)
    → includes_subject (diff s1 s2) s ≡ (includes_subject s1 s && not (includes_subject s2 s))
unfolding diff
includes_subject-diff [] s2 s = unfold includes_subject in refl
includes_subject-diff (x ∷ s1) s2 s = ground (
  arith,
  includes_subject-diff s1 s2 s,
  includes_subject-cons x s1 s,
  includes_subject-cons x (diff s1 s2) s,
  includes_subject_congr s2 x s,
)

diff-eq-nil_of_subset :
    (s1 s2 : List Subject)
    → ((s : Subject) → includes_subject s1 s ≡ true → includes_subject s2 s ≡ true)
    → diff s1 s2 ≡ []
unfolding diff
diff-eq-nil_of_subset [] s2 h = refl
diff-eq-nil_of_subset (x ∷ s1) s2 h = ground (
  arith,
  h x,
  includes_subject-cons x s1 x,
  same_subject_refl x,
  diff-eq-nil_of_subset s1 s2 (λ s i. h s (ground (arith, includes_subject-cons x s1 s))),
)

-- The difference is empty exactly when the first list holds no subject that the second lacks.
pub diff-eq-nil_iff :
    (s1 s2 : List Subject)
    → (diff s1 s2 ≡ [])
      ↔ ((s : Subject) → includes_subject s1 s ≡ true → includes_subject s2 s ≡ true)
diff-eq-nil_iff s1 s2 = (
  λ e s h. ground (
    arith,
    includes_subject-diff s1 s2 s,
    ap (λ l. includes_subject l s) e,
    includes_subject-nil s,
  ),
  diff-eq-nil_of_subset s1 s2,
)
