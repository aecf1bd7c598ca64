-- ===== src/ConsoleController/Diffs/Laws.antt =====
-- console_controller.go: each diff function keeps its promise to `CreateOrUpdate`.
use theatre.Prelude.{
  ◌≡◌, sym, ap, refl, ℕ, String, Option, List, arith, deep_equal, deep_equal_iff, Bool-cases, inl,
  inr,
}
use theatre.Kubernetes.{NamespacedName, OwnerReference}
use theatre.Kubernetes.Workload.{Job}
use theatre.Console.{Console, ConsoleSpec, ConsoleStatus}
use theatre.ConsoleAuthorisation.{ConsoleAuthorisation}
use theatre.Recutil.{Outcome, unchanged, DiffFunc, role_diff, directory_role_binding_diff}
use theatre.Recutil.Converge.{IsDiff}
use theatre.Recutil.Diffs.{
  name_of_metadata, role_name, role_content, binding_name, binding_content, role_diff-IsDiff,
  directory_role_binding_diff-IsDiff,
}
use theatre.ConsoleController.Diffs.{
  Field, take_over, console_ref_field, authorisation_labels_field, status_field, spec_field,
  owners_field, ttl_field, parallelism_field, completions_field, backoff_limit_field,
  active_deadline_field, job_labels_field, authorisation_diff, console_diff, job_diff,
}

-- What a chain of comparisons does so far, for the fields that it has compared.
record IsStep {Obj V : Type 0} (expected existing : Obj) (name_of : Obj → NamespacedName)
    (content : Obj → V) (result : Obj × Outcome) : Type 0 where
  reaches : content result.0 ≡ content expected
  keeps_name : name_of result.0 ≡ name_of existing
  settled : content existing ≡ content expected → result ≡ (existing, unchanged)
  untouched : result.1 ≡ unchanged → result.0 ≡ existing

abbrev paired : {Obj V W : Type 0} → (Obj → W) → (Obj → V) → Obj → W × V
paired field content o = (field o, content o)

-- One more comparison, of a field whose setting keeps the name and what was compared before.
take_over-IsStep :
    {Obj V W : Type 0} (f : Field Obj W) (expected existing : Obj) (name_of : Obj → NamespacedName)
    (content : Obj → V) (result : Obj × Outcome)
    → ((w : W) (o : Obj) → f.get (f.put w o) ≡ w)
    → ((w : W) (o : Obj) → name_of (f.put w o) ≡ name_of o)
    → ((w : W) (o : Obj) → content (f.put w o) ≡ content o)
    → IsStep expected existing name_of content result
    → IsStep expected existing name_of (paired f.get content) (take_over f expected result)
unfolding take_over
take_over-IsStep f expected existing name_of content result get_set set_name set_content step =
    elim (Bool-cases (deep_equal f.decides (f.get expected) (f.get result.0))) [
      | inl e ↦ record {
        reaches = ground (
          arith,
          e,
          step.reaches,
          (deep_equal_iff f.decides (f.get expected) (f.get result.0)).0 e,
        );
        keeps_name = ground (arith, e, step.keeps_name);
        settled = λ h. ground (arith, e, step.settled (ap (λ p. p.1) h));
        untouched = λ h. ground (arith, e, step.untouched);
      }
      | inr e ↦ record {
        reaches = ground (
          arith,
          e,
          step.reaches,
          get_set (f.get expected) result.0,
          set_content (f.get expected) result.0,
        );
        keeps_name = ground (arith, e, step.keeps_name, set_name (f.get expected) result.0);
        settled = λ h.
            let same = step.settled (ap (λ p. p.1) h) in
            absurd (
              ground (
                arith,
                e,
                same,
                (deep_equal_iff f.decides (f.get expected) (f.get existing)).1
                    (sym (ap (λ p. p.0) h)),
              ));
        untouched = λ h. ground (arith, e);
      }
    ]

abbrev nothing : {Obj : Type 0} → Obj → Unit {0}
nothing _ = tt

nothing-IsStep :
    {Obj : Type 0} (expected existing : Obj) (name_of : Obj → NamespacedName)
    → IsStep expected existing name_of nothing (existing, unchanged)
nothing-IsStep expected existing name_of = record {
  reaches = refl;
  keeps_name = refl;
  settled = λ _. refl;
  untouched = λ _. refl;
}

abbrev finished :
    {Obj V : Type 0} {diff_func : DiffFunc Obj} {name_of : Obj → NamespacedName} {content : Obj → V}
    → ((e x : Obj) → IsStep e x name_of content (diff_func e x))
    → IsDiff diff_func name_of content
finished steps = record {
  reaches = λ e x. (steps e x).reaches;
  keeps_name = λ e x. (steps e x).keeps_name;
  settled = λ e x. (steps e x).settled;
  untouched = λ e x. (steps e x).untouched;
}

abbrev pub authorisation_name : ConsoleAuthorisation → NamespacedName
authorisation_name a = name_of_metadata a.metadata

abbrev pub console_name : Console → NamespacedName
console_name c = name_of_metadata c.metadata

abbrev pub job_name : Job → NamespacedName
job_name j = name_of_metadata j.metadata

-- The fields that each diff function compares, the last one compared first.
abbrev pub authorisation_content :
    ConsoleAuthorisation → String × (List (String × String) × Unit {0})
authorisation_content a = (a.console_ref, (a.metadata.labels, tt))

abbrev pub console_content :
    Console → ConsoleStatus × (ConsoleSpec × (List OwnerReference × Unit {0}))
console_content c = (c.status, (c.spec, (c.metadata.owner_references, tt)))

abbrev pub job_content :
    Job
    → Option ℕ
      × (Option ℕ × (Option ℕ × (Option ℕ × (Option ℕ × (List (String × String) × Unit {0})))))
job_content j = (
  j.spec.ttl_seconds_after_finished,
  (
    j.spec.parallelism,
    (
      j.spec.completions,
      (j.spec.backoff_limit, (j.spec.active_deadline_seconds, (j.metadata.labels, tt))),
    ),
  ),
)

-- `authorisationDiff` brings the labels and the console of an authorisation to the expected ones, and
-- asks for an update only if one of them differs.
pub authorisation_diff-IsDiff : IsDiff authorisation_diff authorisation_name authorisation_content
unfolding authorisation_diff
authorisation_diff-IsDiff = finished λ e x.
    take_over-IsStep console_ref_field e x authorisation_name _ _ (λ w o. refl) (λ w o. refl)
      (λ w o. refl)
      (take_over-IsStep authorisation_labels_field e x authorisation_name _ _ (λ w o. refl)
        (λ w o. refl) (λ w o. refl) (nothing-IsStep e x authorisation_name))

-- `consoleDiff` brings the owners, the spec and the status of a console to the expected ones, and
-- asks for an update only if one of them differs.
pub console_diff-IsDiff : IsDiff console_diff console_name console_content
unfolding console_diff
console_diff-IsDiff = finished λ e x.
    take_over-IsStep status_field e x console_name _ _ (λ w o. refl) (λ w o. refl) (λ w o. refl)
      (take_over-IsStep spec_field e x console_name _ _ (λ w o. refl) (λ w o. refl) (λ w o. refl)
        (take_over-IsStep owners_field e x console_name _ _ (λ w o. refl) (λ w o. refl)
          (λ w o. refl) (nothing-IsStep e x console_name)))

-- `jobDiff` brings the labels and the five mutable numbers of a job to the expected ones, and asks
-- for an update only if one of them differs.
pub job_diff-IsDiff : IsDiff job_diff job_name job_content
unfolding job_diff
job_diff-IsDiff = finished λ e x.
    take_over-IsStep ttl_field e x job_name _ _ (λ w o. refl) (λ w o. refl) (λ w o. refl)
      (take_over-IsStep parallelism_field e x job_name _ _ (λ w o. refl) (λ w o. refl) (λ w o. refl)
        (take_over-IsStep completions_field e x job_name _ _ (λ w o. refl) (λ w o. refl)
          (λ w o. refl)
          (take_over-IsStep backoff_limit_field e x job_name _ _ (λ w o. refl) (λ w o. refl)
            (λ w o. refl)
            (take_over-IsStep active_deadline_field e x job_name _ _ (λ w o. refl) (λ w o. refl)
              (λ w o. refl)
              (take_over-IsStep job_labels_field e x job_name _ _ (λ w o. refl) (λ w o. refl)
                (λ w o. refl) (nothing-IsStep e x job_name))))))

-- Each of the five diff functions brings an object's content to the expected one, keeps its name,
-- and asks for an update only if the content differs.
pub diff_funcs-IsDiff :
    IsDiff console_diff console_name console_content
    × IsDiff job_diff job_name job_content
    × IsDiff authorisation_diff authorisation_name authorisation_content
    × IsDiff role_diff role_name role_content
    × IsDiff directory_role_binding_diff binding_name binding_content
diff_funcs-IsDiff = (
  console_diff-IsDiff, job_diff-IsDiff, authorisation_diff-IsDiff, role_diff-IsDiff,
  directory_role_binding_diff-IsDiff,
)
