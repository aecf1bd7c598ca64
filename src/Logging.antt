-- ===== src/Logging.antt =====
-- pkg/logging: log lines that are recorded as events of an object, and labels as keys of a log.
pub mod Recording
pub mod Linear
use Prim.Native.Char.{Char, code}
use theatre.Prelude.{
  ℕ, String, ◌==◌, Bool, true, false, ◌||◌, Option, none, some, List, [], ◌∷◌, ◌++◌, Result, ok,
  err, if◌then◌else◌, insert, lookup,
}
use theatre.Prelude.Results.{panic, ◌>>=◌}
use theatre.Prelude.Texts.{same_char}

-- A key or value of a log line: a text, or another value with its text by `%v`.
pub data Value : Type 0 where
  text : String → Value
  other : String → Value

abbrev pub shown : Value → String
shown (text s) = s
shown (other s) = s

-- `EventRecordingLogSink`, as its fields that the code reads or writes; the sink it wraps and the
-- object of its events stay the same.
pub record EventRecordingLogSink : Type 0 where
  pub values : List Value

-- `WithEventRecorder`
abbrev pub with_event_recorder : EventRecordingLogSink
with_event_recorder = record { values = [] }

-- `WithValues`
unfoldable pub with_values : EventRecordingLogSink → List Value → EventRecordingLogSink
with_values erl values = record { values = erl.values ++ values }

-- `WithNoRecord`
unfoldable pub with_no_record : EventRecordingLogSink → EventRecordingLogSink
unfolding with_values
with_no_record erl = with_values erl (text "eventType" ∷ text "DontRecord" ∷ [])

-- The body of the loop: a key that is no text is passed over.
abbrev add_pair : Value → Value → List (String × String) → List (String × String)
add_pair (text k) v kvs = insert k (shown v) kvs
add_pair (other _) v kvs = kvs

-- The loop over the keys and values, which panics on a key without a value that is a text.
unfoldable pub pairs : List Value → List (String × String) → Result (List (String × String))
pairs [] kvs = ok kvs
pairs (k ∷ []) kvs = err (panic "index out of range")
pairs (k ∷ v ∷ keyvals) kvs = pairs keyvals (add_pair k v kvs)

-- An event that the recorder gets: its type, its reason and its message.
pub record Recorded : Type 0 where
  pub event_type : String
  pub event : String
  pub message : String

-- The type and the message, from the error if there is one.
unfoldable pub recorded_event : String → String → Option String → Recorded
recorded_event event msg none = record { event_type = "Normal"; event = event; message = msg }
recorded_event event msg (some e) = record { event_type = "Warning"; event = event; message = e }

abbrev is_text : Option String → String → Bool
is_text none s = false
is_text (some t) s = t == s

unfoldable pub event_of : String → List (String × String) → Option Recorded
unfolding recorded_event
event_of msg kvs = elim (lookup "event" kvs) [
  | none ↦ none
  | some event ↦
      if is_text (lookup "eventType" kvs) "DontRecord"
      then none
      else some (recorded_event event msg (lookup "error" kvs))
]

-- `Info`: the event that is recorded, if any.
unfoldable pub info : EventRecordingLogSink → String → List Value → Result (Option Recorded)
unfolding pairs event_of
info erl msg keyvals = do kvs ← pairs keyvals []; ok (event_of msg kvs)

-- `strings.ReplaceAll(s, c, "_")` for a text of one character
unfoldable pub replace_char : Char → String → String
replace_char mark String.[] = ""
replace_char mark (String.◌∷◌ c s) =
    String.◌∷◌ (if same_char mark c then "_" else c) (replace_char mark s)

-- `linearLabelKey`
unfoldable pub linear_label_key : String → String
unfolding replace_char
linear_label_key label_key = replace_char "." (replace_char "/" label_key)
