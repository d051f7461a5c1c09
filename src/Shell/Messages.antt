-- ===== src/Shell/Messages.antt =====
-- What the reporter of connection states writes.
use pazuzu.Base.{
  ◌≡◌, refl, sym, ◌∙◌, ap, inl, inr, Bool-cases, true, Option, some, none, List, [], ◌∷◌, Text, map,
  text_eq_iff, if◌then◌else◌,
}
use pazuzu.Shell.{ConnectionReporter, is_last, state_message, state_changed}

-- The states that differ from the one before.
unfoldable pub changes : Option Text → List Text → List Text
changes last [] = []
changes last (state ∷ states) =
    let rest = changes (some state) states in if is_last state last then rest else state ∷ rest

-- The states that are reported, in their order.
unfoldable pub report_all : List Text → ConnectionReporter → ConnectionReporter
report_all [] r = r
report_all (state ∷ states) r = report_all states (state_changed state r)

-- The newest first.
abbrev pub newest : List Text → List Text → List Text
newest [] stream = stream
newest (message ∷ messages) stream = newest messages (message ∷ stream)

is_last-true : (state : Text) (last : Option Text) → is_last state last ≡ true → last ≡ some state
is_last-true state none h = absurd (cc h)
is_last-true state (some last) h = ap some (sym ((text_eq_iff state last).0 h))

-- One report, whether it writes or not.
report_one :
    (state : Text) (states : List Text) (r : ConnectionReporter)
    → newest
        (map state_message (changes (state_changed state r).last_state states))
        (state_changed state r).stream
      ≡ newest (map state_message (changes r.last_state (state ∷ states))) r.stream
unfolding changes state_changed
report_one state states r = elim (Bool-cases (is_last state r.last_state)) [
  | inl h ↦ rw h (rw (is_last-true state r.last_state h) refl)
  | inr h ↦ rw h refl
]

-- Of any sequence of reported states, exactly those that differ from the state before are written, each once, with its
-- message and in their order, whatever was reported before.
pub report_all-changes :
    (states : List Text) (r : ConnectionReporter)
    → (report_all states r).stream
      ≡ newest (map state_message (changes r.last_state states)) r.stream
unfolding report_all
report_all-changes [] r = unfold changes in refl
report_all-changes (state ∷ states) r =
    report_all-changes states (state_changed state r) ∙ report_one state states r
