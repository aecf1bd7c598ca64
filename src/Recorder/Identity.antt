-- ===== src/Recorder/Identity.antt =====
-- events.go: the identifier of a console's events.
use Prim.Native.String.append.{nil as append_nil, cons as append_cons}
use theatre.Prelude.{◌≡◌, ap, ◌∙◌, sym, String, ◌<>◌, ℕ, true}
use theatre.Prelude.Texts.{join, lacks, separated-injective}
use theatre.Recorder.{new_console_event_id}

slash : (t : String) → "/" <> t ≡ String.◌∷◌ "/" t
slash t = append_cons "/" "" t ∙ ap (String.◌∷◌ "/") (append_nil t)

slashed-injective :
    (s s' t t' : String)
    → lacks "/" s ≡ true
    → lacks "/" s' ≡ true
    → s <> ("/" <> t) ≡ s' <> ("/" <> t')
    → (s ≡ s') × (t ≡ t')
slashed-injective s s' t t' h h' e =
    separated-injective "/" s s' t t' h h'
      (ap (λ x. s <> x) (sym (slash t)) ∙ e ∙ ap (λ x. s' <> x) (slash t'))

-- Two consoles whose context and namespace have no slash share an identifier only if they were
-- created in the same second of the same context, namespace and name; the text of a time is taken to
-- have no slash.
pub new_console_event_id-injective :
    (format : ℕ → String) (context context' namespace namespace' console console' : String)
    (time time' : ℕ)
    → ((t : ℕ) → lacks "/" (format t) ≡ true)
    → lacks "/" context ≡ true
    → lacks "/" context' ≡ true
    → lacks "/" namespace ≡ true
    → lacks "/" namespace' ≡ true
    → new_console_event_id format context namespace console time
      ≡ new_console_event_id format context' namespace' console' time'
    → (format time ≡ format time')
      × (context ≡ context')
      × (namespace ≡ namespace')
      × (console ≡ console')
unfolding new_console_event_id join
new_console_event_id-injective format context context' namespace namespace' console console' time
      time' times h1 h2 h3 h4 e =
    let (times_eq, e1) =
      slashed-injective (format time) (format time') _ _ (times time) (times time') e in
    let (contexts, e2) = slashed-injective context context' _ _ h1 h2 e1 in
    let (namespaces, consoles) = slashed-injective namespace namespace' _ _ h3 h4 e2 in
    (times_eq, contexts, namespaces, consoles)
