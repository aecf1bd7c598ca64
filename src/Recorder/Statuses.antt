-- ===== src/Recorder/Statuses.antt =====
-- lifecycle_recorder.go: what a terminated event says of the containers of its pod.
use theatre.Prelude.{
  ◌≡◌, ◌≢◌, refl, subst, ap, ◌∙◌, sym, ℕ, String, ◌==◌, Option, none, some, List, [], ◌∷◌, ◌++◌,
  arith, if◌then◌else◌, lookup, lookup-insert, inl, inr, Option-cases,
}
use theatre.Kubernetes.Workload.{Pod, ContainerStatus}
use theatre.Recorder.{
  Recorder, append_status, append_status_messages, pod_statuses, terminated_message,
  waiting_message,
}

-- The exit code of a status.
abbrev code_of : ContainerStatus → Option ℕ
code_of status = elim status.terminated [ none ↦ none | some t ↦ some t.exit_code ]

-- The exit code of the last status of a name that has terminated.
unfoldable pub last_code : String → List ContainerStatus → Option ℕ
last_code name [] = none
last_code name (status ∷ statuses) = elim (last_code name statuses) [
  | some code ↦ some code
  | none ↦ if status.name == name then code_of status else none
]

-- Every exit code has a message.
abbrev pub IsExplained : List (String × String) × List (String × ℕ) → Type 0
IsExplained (messages, exit_codes) =
    (x : String) → lookup x exit_codes ≢ none → lookup x messages ≢ none

or_none :
    {A : Type 0} (o : Option A) → elim o as (λ _. Option A) [ some a ↦ some a | none ↦ none ] ≡ o
or_none none = refl
or_none (some a) = refl

module _ {S : Type 0} (l : Recorder S) where
  append_status-code :
      (status : ContainerStatus) (maps : List (String × String) × List (String × ℕ)) (x : String)
      → lookup x (append_status l status maps).1
        ≡ elim (if status.name == x then code_of status else none) [
          | some code ↦ some code
          | none ↦ lookup x maps.1
        ]
  unfolding append_status
  append_status-code status (messages, exit_codes) x = elim (Option-cases status.terminated) [
    | inl e ↦ elim (Option-cases status.waiting) [
      | inl w ↦ ground (arith, e, w)
      | inr (_, w) ↦ ground (arith, e, w)
    ]
    | inr (t, e) ↦ ground (arith, e, lookup-insert status.name x t.exit_code exit_codes)
  ]

  append_status_messages-code :
      (statuses : List ContainerStatus) (maps : List (String × String) × List (String × ℕ))
      (x : String)
      → lookup x (append_status_messages l statuses maps).1
        ≡ elim (last_code x statuses) [ some code ↦ some code | none ↦ lookup x maps.1 ]
  unfolding append_status_messages last_code
  append_status_messages-code [] maps x = refl
  append_status_messages-code (status ∷ statuses) maps x = ground (
    arith,
    append_status_messages-code statuses (append_status l status maps) x,
    append_status-code status maps x,
  )

  append_status-IsExplained :
      (status : ContainerStatus) (maps : List (String × String) × List (String × ℕ))
      → IsExplained maps
      → IsExplained (append_status l status maps)
  unfolding append_status
  append_status-IsExplained status (messages, exit_codes) h =
      elim (Option-cases status.terminated) [
        | inl e ↦ elim (Option-cases status.waiting) [
          | inl w ↦ rw (e, w) h
          | inr (w, f) ↦
              rw (e, f)
                (λ x there gone. ground (
                  arith,
                  h x there,
                  gone,
                  lookup-insert status.name x (waiting_message l w) messages,
                ))
        ]
        | inr (t, e) ↦ rw e (λ x there gone. ground (
          arith,
          h x,
          there,
          gone,
          lookup-insert status.name x (terminated_message l t) messages,
          lookup-insert status.name x t.exit_code exit_codes,
        ))
      ]

  append_status_messages-IsExplained :
      (statuses : List ContainerStatus) (maps : List (String × String) × List (String × ℕ))
      → IsExplained maps
      → IsExplained (append_status_messages l statuses maps)
  unfolding append_status_messages
  append_status_messages-IsExplained [] maps h = h
  append_status_messages-IsExplained (status ∷ statuses) maps h =
      append_status_messages-IsExplained statuses (append_status l status maps)
        (append_status-IsExplained status maps h)

  append_status_messages-append :
      (first second : List ContainerStatus) (maps : List (String × String) × List (String × ℕ))
      → append_status_messages l second (append_status_messages l first maps)
        ≡ append_status_messages l (first ++ second) maps
  unfolding append_status_messages
  append_status_messages-append [] second maps = refl
  append_status_messages-append (status ∷ first) second maps =
      append_status_messages-append first second (append_status l status maps)

  -- The exit codes of a terminated event are those of the containers that have terminated: for each
  -- name the code of the last such status, of the pod's init containers, then its containers, then
  -- its ephemeral ones, and none for a name without one. Each name with a code has a message.
  pub pod_statuses-codes :
      (pod : Pod)
      → ((x : String)
          → lookup x (pod_statuses l (some pod)).1
            ≡ last_code x (
                pod.init_container_statuses
                ++ (pod.container_statuses ++ pod.ephemeral_container_statuses)))
        × IsExplained (pod_statuses l (some pod))
  unfolding pod_statuses lookup
  pod_statuses-codes pod =
      let all =
        pod.init_container_statuses
        ++ (pod.container_statuses ++ pod.ephemeral_container_statuses) in
      let joined =
        append_status_messages-append pod.container_statuses pod.ephemeral_container_statuses
          (append_status_messages l pod.init_container_statuses ([], []))
        ∙ append_status_messages-append pod.init_container_statuses
            (pod.container_statuses ++ pod.ephemeral_container_statuses) ([], []) in
      (
        λ x.
            ap (λ m. lookup x m.1) joined
            ∙ append_status_messages-code all ([], []) x
            ∙ or_none (last_code x all),
        subst IsExplained (sym joined) (
            append_status_messages-IsExplained all ([], [])
              (λ x there _. there (unfold lookup in refl))),
      )
