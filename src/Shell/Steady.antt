-- ===== src/Shell/Steady.antt =====
-- What the steps of `run_shell` leave as it is.
use pazuzu.Base.{ℕ, zero, suc, Option, none, some, List, Text}
use pazuzu.Errors.{Result}
use pazuzu.Exec.Keeps.{Keeps, Keeps-pure, Keeps-modify, keeps_rules}
use pazuzu.Json.{Dict}
use pazuzu.Shell.{ConnectionReporter}
use pazuzu.Shell.Loop.{
  Callbacks, Attached, Session, report, outside, cancelled, call_or_stop, wait_until_connected,
  settle, ready_rounds, ready_attachment, reconnected,
}

-- Everything but attaching a client leaves the clients as they are.
module _ {W : Type 0} (cb : Callbacks W) (P : List Attached → Type 0) where
  abbrev pub Holds : Session W → Type 0
  Holds s = P s.attached

  Keeps-report : (change : ConnectionReporter → ConnectionReporter) → Keeps Holds (report change)
  Keeps-report change = Keeps-modify _ (λ s h. h)

  Keeps-outside : {A : Type 0} (f : W → Result A × W) → Keeps Holds (outside f)
  unfolding outside
  Keeps-outside f = record { at = λ s h. h }

  pub Keeps-cancelled : Keeps Holds (cancelled cb)
  unfolding cancelled
  Keeps-cancelled = search keeps_rules depth 5

  Keeps-call_or_stop : {A : Type 0} (f : W → Result A × W) → Keeps Holds (call_or_stop cb f)
  unfolding call_or_stop
  Keeps-call_or_stop f = search (keeps_rules, Keeps-cancelled, Keeps-outside) depth 20

  Keeps-wait_until_connected :
      (rounds : ℕ) (health : Option Dict) → Keeps Holds (wait_until_connected cb rounds health)
  unfolding wait_until_connected
  Keeps-wait_until_connected zero health = Keeps-pure none
  Keeps-wait_until_connected (suc rounds) (some health) =
      search (keeps_rules, Keeps-call_or_stop, Keeps-report, Keeps-wait_until_connected rounds)
        depth 20
  Keeps-wait_until_connected (suc rounds) none =
      search (keeps_rules, Keeps-call_or_stop, Keeps-report, Keeps-wait_until_connected rounds)
        depth 20

  pub Keeps-reconnected : Keeps Holds (reconnected cb)
  unfolding reconnected
  Keeps-reconnected = search (keeps_rules, Keeps-call_or_stop, Keeps-report) depth 20

  module _ (patience : ℕ) where
    Keeps-settle : (health : Dict) (state : Text) → Keeps Holds (settle cb patience health state)
    unfolding settle
    Keeps-settle health state =
        search (keeps_rules, Keeps-report, Keeps-wait_until_connected) depth 20

    Keeps-ready_rounds :
        (rounds : ℕ) (health : Dict) → Keeps Holds (ready_rounds cb patience rounds health)
    unfolding ready_rounds
    Keeps-ready_rounds zero health = Keeps-pure none
    Keeps-ready_rounds (suc rounds) health =
        search (keeps_rules, Keeps-settle, Keeps-call_or_stop, Keeps-ready_rounds rounds) depth 30

    pub Keeps-ready_attachment :
        (health : Option Dict) → Keeps Holds (ready_attachment cb patience health)
    unfolding ready_attachment
    Keeps-ready_attachment (some health) =
        search (keeps_rules, Keeps-call_or_stop, Keeps-ready_rounds) depth 20
    Keeps-ready_attachment none =
        search (keeps_rules, Keeps-call_or_stop, Keeps-ready_rounds) depth 20
