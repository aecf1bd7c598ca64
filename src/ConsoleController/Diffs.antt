-- ===== src/ConsoleController/Diffs.antt =====
-- console_controller.go: the diff functions of console authorisations, consoles and jobs.
pub mod Laws
use theatre.Prelude.{
  ℕ, Option, List, String, deep_equal, if◌then◌else◌, String-discrete, ℕ_discrete, ◌≡◌,
}
use theatre.Kubernetes.{ObjectMeta, OwnerReference, Labels-discrete, OwnerReferences-discrete}
use theatre.Kubernetes.Workload.{Job, JobSpec}
use theatre.Console.{Console, ConsoleSpec, ConsoleStatus, Phase}
use theatre.ConsoleAuthorisation.{ConsoleAuthorisation}
use theatre.Recutil.{Outcome, update, unchanged, DiffFunc}

unfoldable pub OptionalNumber-discrete : Discrete (Option ℕ)
unfolding ℕ_discrete
OptionalNumber-discrete = hlevel ℕ_discrete

unfoldable pub ConsoleSpec-discrete : Discrete ConsoleSpec
unfolding String-discrete ℕ_discrete
ConsoleSpec-discrete = hlevel (String-discrete, ℕ_discrete)

unfoldable pub ConsoleStatus-discrete : Discrete ConsoleStatus
unfolding String-discrete ℕ_discrete
ConsoleStatus-discrete = hlevel (String-discrete, ℕ_discrete)

-- A field that a diff function compares with `reflect.DeepEqual` and assigns.
pub record Field (Obj V : Type 0) : Type 0 where
  pub decides : Discrete V
  pub get : Obj → V
  pub put : V → Obj → Obj

-- One comparison of a diff function: when the field differs, the object takes the expected value and
-- the operation becomes an update.
unfoldable pub take_over : {Obj V : Type 0} → Field Obj V → Obj → Obj × Outcome → Obj × Outcome
take_over f expected result =
    if deep_equal f.decides (f.get expected) (f.get result.0)
    then result
    else (f.put (f.get expected) result.0, update)

abbrev pub set_labels : List (String × String) → ObjectMeta → ObjectMeta
set_labels labels m = record m { labels = labels }

abbrev pub console_ref_field : Field ConsoleAuthorisation String
console_ref_field = record {
  decides = String-discrete;
  get = λ a. a.console_ref;
  put = λ v a. record a { console_ref = v };
}

abbrev pub authorisation_labels_field : Field ConsoleAuthorisation (List (String × String))
authorisation_labels_field = record {
  decides = Labels-discrete;
  get = λ a. a.metadata.labels;
  put = λ v a. record a { metadata = set_labels v a.metadata };
}

-- `authorisationDiff`: the authorisations are the business of the authorising users.
unfoldable pub authorisation_diff : DiffFunc ConsoleAuthorisation
authorisation_diff expected existing =
    take_over console_ref_field expected
      (take_over authorisation_labels_field expected (existing, unchanged))

abbrev pub owners_field : Field Console (List OwnerReference)
owners_field = record {
  decides = OwnerReferences-discrete;
  get = λ c. c.metadata.owner_references;
  put = λ v c. record c { metadata = record c.metadata { owner_references = v } };
}

abbrev pub spec_field : Field Console ConsoleSpec
spec_field = record {
  decides = ConsoleSpec-discrete;
  get = λ c. c.spec;
  put = λ v c. record c { spec = v };
}

abbrev pub status_field : Field Console ConsoleStatus
status_field = record {
  decides = ConsoleStatus-discrete;
  get = λ c. c.status;
  put = λ v c. record c { status = v };
}

-- `consoleDiff`
unfoldable pub console_diff : DiffFunc Console
console_diff expected existing =
    take_over status_field expected
      (take_over spec_field expected (take_over owners_field expected (existing, unchanged)))

abbrev pub job_labels_field : Field Job (List (String × String))
job_labels_field = record {
  decides = Labels-discrete;
  get = λ j. j.metadata.labels;
  put = λ v j. record j { metadata = set_labels v j.metadata };
}

-- A number of the spec of a job.
abbrev pub number_field :
    (JobSpec → Option ℕ) → (Option ℕ → JobSpec → JobSpec) → Field Job (Option ℕ)
number_field get put = record {
  decides = OptionalNumber-discrete;
  get = λ j. get j.spec;
  put = λ v j. record j { spec = put v j.spec };
}

abbrev pub active_deadline_field : Field Job (Option ℕ)
active_deadline_field =
    number_field (λ s. s.active_deadline_seconds) (λ v s. record s { active_deadline_seconds = v })

abbrev pub backoff_limit_field : Field Job (Option ℕ)
backoff_limit_field = number_field (λ s. s.backoff_limit) (λ v s. record s { backoff_limit = v })

abbrev pub completions_field : Field Job (Option ℕ)
completions_field = number_field (λ s. s.completions) (λ v s. record s { completions = v })

abbrev pub parallelism_field : Field Job (Option ℕ)
parallelism_field = number_field (λ s. s.parallelism) (λ v s. record s { parallelism = v })

abbrev pub ttl_field : Field Job (Option ℕ)
ttl_field =
    number_field (λ s. s.ttl_seconds_after_finished)
      (λ v s. record s { ttl_seconds_after_finished = v })

-- `jobDiff`: the mutable fields of a job.
unfoldable pub job_diff : DiffFunc Job
job_diff expected existing = take_over ttl_field expected (
    take_over parallelism_field expected (
      take_over completions_field expected (
        take_over backoff_limit_field expected (
          take_over active_deadline_field expected
            (take_over job_labels_field expected (existing, unchanged))))))
