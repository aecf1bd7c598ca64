-- ===== src/ConsoleController/Job/Recording.antt =====
-- console_controller.go: the recording of a session keeps the command of every container.
use Prim.Native.Char.{code}
use Prim.Native.String.append.{cons as append_cons}
use theatre.Prelude.{
  ◌<>◌, ◌∙◌, ℕ, ◌+◌, ◌≤◌, ◌≡◌, refl, ap, String, ◌==◌, false, Option, none, some, List, [], ◌∷◌,
  ◌++◌, map, arith, if◌then◌else◌, ltb, Option-cases, Bool-cases, inl, inr, ==_of_ne,
}
use theatre.Kubernetes.Workload.{Container, PodTemplate}
use theatre.ConsoleController.Job.{
  JobOptions, record_session, record_sessions, ensure_minimum,
  add_session_recording_to_pod_template, build_sidecar_container, session_record_file_name,
  session_rec_vol_mount,
}

-- The command line after the first `--`, which is what `tlog-rec` runs.
unfoldable pub after_dashes : List String → List String
after_dashes [] = []
after_dashes (w ∷ ws) = if w == "--" then ws else after_dashes ws

-- The command line of a container.
abbrev pub command_line : Container → List String
command_line c = c.command ++ c.args

-- What a program with its arguments records: `tlog-rec` the command line after `--`, and nothing else
-- records.
unfoldable pub recorded_by : List String → List String → Option (List String)
unfolding after_dashes
recorded_by [] args = none
recorded_by (program ∷ _ ∷ _) args = none
recorded_by (program ∷ []) args = if program == "tlog-rec" then some (after_dashes args) else none

-- The command line that each container records, if any.
unfoldable pub recorded : List Container → List (Option (List String))
recorded [] = []
recorded (c ∷ cs) = recorded_by c.command c.args ∷ recorded cs

record_session-after_dashes :
    (r : JobOptions) (ix : ℕ) (c : Container)
    → (session_record_file_name r ix == "--") ≡ false
    → recorded_by (record_session r ix c).command (record_session r ix c).args
      ≡ some (command_line c)
unfolding record_session recorded_by after_dashes
record_session-after_dashes r ix c h = rw h refl

abbrev head_code : String → ℕ
head_code String.[] = 0
head_code (String.◌∷◌ c s) = code c

head_code-append : (s t : String) → head_code s ≡ 47 → head_code (s <> t) ≡ 47
head_code-append String.[] t h = absurd (ground arith)
head_code-append (String.◌∷◌ c s) t h = ap head_code (append_cons c s t) ∙ h

file-ne-dashes : (r : JobOptions) (ix : ℕ) → (session_record_file_name r ix == "--") ≡ false
unfolding session_record_file_name
file-ne-dashes r ix = ==_of_ne λ e.
    let slash : head_code (session_record_file_name r ix) ≡ 47 =
      head_code-append session_rec_vol_mount ("/output" <> r.print_number ix) refl in
    let dash : head_code (session_record_file_name r ix) ≡ 45 = ap head_code e in
    absurd (ground (arith, slash, dash))

record_sessions-recorded :
    (r : JobOptions) (ix : ℕ) (cs : List Container)
    → recorded (record_sessions r ix cs) ≡ map (λ c. some (command_line c)) cs
unfolding record_sessions recorded
record_sessions-recorded r ix [] = refl
record_sessions-recorded r ix (c ∷ cs) = cc (
  record_session-after_dashes r ix c (file-ne-dashes r ix),
  record_sessions-recorded r (ix + 1) cs,
)

-- Recording keeps what runs: before the sidecar, which comes last, stands one container for each of
-- the template, in order, which runs `tlog-rec`, and what `tlog-rec` records is the command line of
-- that container.
pub add_session_recording-command_lines :
    (r : JobOptions) (t : PodTemplate) (console_id : String)
    → (cs : List Container) × ((add_session_recording_to_pod_template r t
          console_id).spec.containers
        ≡ cs ++ build_sidecar_container r console_id ∷ [])
      × (recorded cs ≡ map (λ c. some (command_line c)) t.spec.containers)
unfolding add_session_recording_to_pod_template
add_session_recording-command_lines r t console_id =
    (record_sessions r 0 t.spec.containers, refl, record_sessions-recorded r 0 t.spec.containers)

abbrev pub or_zero : Option ℕ → ℕ
or_zero none = 0
or_zero (some n) = n

-- The pod is left at least two minutes to stop, longer than the delay and the grace period of the
-- wrapper together, and never less than its template asks for.
pub add_session_recording-grace :
    (r : JobOptions) (t : PodTemplate) (console_id : String)
    → (g : ℕ) × ((add_session_recording_to_pod_template r t
          console_id).spec.termination_grace_period_seconds
        ≡ some g)
      × (120 ≤ g)
      × (or_zero t.spec.termination_grace_period_seconds ≤ g)
unfolding add_session_recording_to_pod_template ensure_minimum
add_session_recording-grace r t console_id =
    elim (Option-cases t.spec.termination_grace_period_seconds) [
      | inl e ↦ (120, ground arith, ground arith, ground arith)
      | inr (a, e) ↦ elim (Bool-cases (ltb a 120)) [
        | inl l ↦ (120, ground arith, ground arith, ground arith)
        | inr l ↦ (a, ground arith, ground arith, ground arith)
      ]
    ]
