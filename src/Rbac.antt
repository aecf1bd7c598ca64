-- ===== src/Rbac.antt =====
-- pkg/rbac/subjects.go: sets of RBAC subjects as slices.
pub mod Subjects
use theatre.Prelude.{Bool, false, not, ◌&&◌, List, [], ◌∷◌, ◌==◌, any, if◌then◌else◌}
use theatre.Kubernetes.{Subject}

-- The comparison inside the loop; the API group takes no part in it.
unfoldable pub same_subject : Subject → Subject → Bool
same_subject existing s =
    existing.kind == s.kind && existing.name == s.name && existing.namespace == s.namespace

unfoldable pub includes_subject : List Subject → Subject → Bool
includes_subject ss s = any (λ existing. same_subject existing s) ss

-- The loop of `Diff`, which appends to `result` in the order of `s1`.
unfoldable pub diff : List Subject → List Subject → List Subject
diff [] s2 = []
diff (s ∷ s1) s2 = let rest = diff s1 s2 in if not (includes_subject s2 s) then s ∷ rest else rest
