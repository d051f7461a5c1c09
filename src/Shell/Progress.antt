-- ===== src/Shell/Progress.antt =====
-- A shell that waits for its connection gets on once the connection is back.
use pazuzu.Base.{
  Bool-cases, inl, inr, ℕ, zero, suc, ◌<◌, ◌≡◌, ◌∙◌, refl, true, false, Option, none, some, List,
  Text, codes, text_eq, arith, is_some,
}
use pazuzu.Errors.{Result, ok}
use pazuzu.Exec.{pure, gets, modify, lift, attempt, handle, ◌>>=◌}
use pazuzu.Json.{Dict}
use pazuzu.Settings.{SshAttachment}
use pazuzu.Shell.{ConnectionReporter, connection_state, state_changed}
use pazuzu.Shell.Loop.{
  Callbacks, Attached, Session, outside, cancelled, call_or_stop, wait_until_connected, settle,
  ready_rounds, ready_attachment,
}

module _ {W : Type 0} (cb : Callbacks W) where
  -- A call that returns, with no cancellation before its end.
  pub record Calls {A : Type 0} (f : W → Result A × W) (w : W) (a : A) (w' : W) : Type 0 where
    pub before : cb.is_cancelled w ≡ false
    pub returns : f w ≡ (ok a, w')
    pub after : cb.is_cancelled w' ≡ false

  -- The gateway says that the connection is in a state.
  pub record Polled (w : W) (health : Dict) (state : Text) (w' : W) : Type 0 where
    pub calls : Calls cb.status w health w'
    pub says : connection_state health ≡ ok state

  -- From a poll with some state on, the connection is back after at most `n` more polls, each of
  -- which sleeps and asks again.
  pub data ComesBack : ℕ → Text → W → W → Type 0 where
    back :
        {n : ℕ} {state : Text} {w : W}
        → text_eq state (codes "connected") ≡ true
        → ComesBack n state w w
    later :
        {n : ℕ} {state state' : Text} {health : Dict} {w w' w'' end : W}
        → text_eq state (codes "connected") ≡ false
        → Calls cb.sleep w tt w'
        → Polled w' health state' w''
        → ComesBack n state' w'' end
        → ComesBack (suc n) state w end

  abbrev at : ConnectionReporter → List Attached → W → Session W
  at reporter attached w = record { reporter = reporter; attached = attached; world = w }

  call_or_stop-at :
      {A : Type 0} {f : W → Result A × W} {w w' : W} {a : A} (r : ConnectionReporter)
      (attached : List Attached)
      → Calls f w a w'
      → call_or_stop cb f (at r attached w) ≡ (ok a, at r attached w')
  unfolding call_or_stop cancelled outside gets attempt lift pure ◌>>=◌
  call_or_stop-at r attached h = rw h.before (rw h.returns (rw h.after refl))

  -- What the wait leaves: the world of the last poll, with the same clients attached so far.
  abbrev IsBack : Result (Option (Unit {0})) × Session W → List Attached → W → Type 0
  IsBack done attached end = (r : ConnectionReporter) × (done ≡ (ok (some tt), at r attached end))

  -- A round without a known health polls, and goes on as one that knows it.
  wait-Polled :
      (rounds : ℕ) {health : Dict} {state : Text} {w w' : W} (r : ConnectionReporter)
      (attached : List Attached)
      → Polled w health state w'
      → wait_until_connected cb (suc rounds) none (at r attached w)
        ≡ wait_until_connected cb (suc rounds) (some health) (at r attached w')
  unfolding wait_until_connected pure ◌>>=◌
  wait-Polled rounds r attached polled = rw (call_or_stop-at r attached polled.calls, ◌>>=◌) refl

  -- A round that finds the connection down sleeps and polls again.
  wait-down :
      (rounds : ℕ) {state : Text} {w w' : W} (health : Dict) (r : ConnectionReporter)
      (attached : List Attached)
      → connection_state health ≡ ok state
      → text_eq state (codes "connected") ≡ false
      → Calls cb.sleep w tt w'
      → wait_until_connected cb (suc rounds) (some health) (at r attached w)
        ≡ wait_until_connected cb rounds none (at (state_changed state r) attached w')
  unfolding wait_until_connected lift pure modify ◌>>=◌
  wait-down rounds {state = state} health r attached says down slept =
      rw (says, down) (rw (call_or_stop-at (state_changed state r) attached slept, ◌>>=◌) refl)

  wait-back :
      (rounds : ℕ) {state : Text} {w : W} (health : Dict) (r : ConnectionReporter)
      (attached : List Attached)
      → connection_state health ≡ ok state
      → text_eq state (codes "connected") ≡ true
      → wait_until_connected cb (suc rounds) (some health) (at r attached w)
        ≡ (ok (some tt), at (state_changed state r) attached w)
  unfolding wait_until_connected lift pure modify ◌>>=◌
  wait-back rounds health r attached says up = rw (says, up) refl

  wait-IsBack :
      (rounds : ℕ) {n : ℕ} {state : Text} {w end : W} (health : Dict) (r : ConnectionReporter)
      (attached : List Attached)
      → connection_state health ≡ ok state
      → ComesBack n state w end
      → n < rounds
      → IsBack (wait_until_connected cb rounds (some health) (at r attached w)) attached end
  wait-IsBack zero health r attached says c lt = absurd (omega arith)
  wait-IsBack (suc rounds) {state = state} health r attached says (back up) lt =
      (state_changed state r, wait-back rounds health r attached says up)
  wait-IsBack (suc zero) health r attached says (later down slept polled c) lt =
      absurd (omega arith)
  wait-IsBack (suc (suc rounds)) {state = state} health r attached says
        (later {health = health'} down slept polled c) lt =
      let (r', done) =
        wait-IsBack (suc rounds) health' (state_changed state r) attached polled.says c
          (omega arith) in
      (
        r',
        wait-down (suc rounds) health r attached says down slept
            ∙ (wait-Polled rounds (state_changed state r) attached polled ∙ done),
      )

  settle-IsBack :
      (patience : ℕ) {n : ℕ} {state : Text} {w end : W} (health : Dict) (r : ConnectionReporter)
      (attached : List Attached)
      → connection_state health ≡ ok state
      → ComesBack n state w end
      → n < patience
      → IsBack (settle cb patience health state (at r attached w)) attached end
  unfolding settle gets pure modify ◌>>=◌
  settle-IsBack patience {state = state} health r attached says (back up) lt =
      elim (Bool-cases (is_some r.last_state)) [
        | inl known ↦ (state_changed state r, rw up (rw known refl))
        | inr new ↦ (r, rw up (rw new refl))
      ]
  settle-IsBack patience health r attached says (later down slept polled c) lt =
      let (r', done) = wait-IsBack patience health r attached says (later down slept polled c) lt in
      (r', rw down done)

  -- A round of `_ready_attachment` whose waiting ends and whose call returns.
  ready-round :
      (patience rounds : ℕ) {state : Text} {end end' : W} (health : Dict) (w : W)
      (r r' : ConnectionReporter) (attached : List Attached) (a : SshAttachment)
      → connection_state health ≡ ok state
      → settle cb patience health state (at r attached w) ≡ (ok (some tt), at r' attached end)
      → Calls cb.get_attachment end a end'
      → ready_rounds cb patience (suc rounds) health (at r attached w)
        ≡ (ok (some a), at r' attached end')
  unfolding ready_rounds lift attempt handle pure ◌>>=◌
  ready-round patience rounds health w r r' attached a says settled given =
      rw says (rw settled (rw (call_or_stop-at r' attached given) refl))

  -- Once the connection is back after at most `patience` polls that follow the first, with no
  -- cancellation and no failing poll or sleep until then, and the gateway then gives an attachment, a
  -- shell that waits gets that attachment, with the clients attached so far unchanged.
  pub ready_attachment-ComesBack :
      {n : ℕ} {state : Text} {health : Dict} {w w' end end' : W} (patience : ℕ)
      (r : ConnectionReporter) (attached : List Attached) (a : SshAttachment)
      → Polled w health state w'
      → ComesBack n state w' end
      → n < suc patience
      → Calls cb.get_attachment end a end'
      → (r' : ConnectionReporter) × (ready_attachment cb (suc patience) none (at r attached w)
          ≡ (ok (some a), at r' attached end'))
  unfolding ready_attachment pure ◌>>=◌
  ready_attachment-ComesBack {health = health} {w' = w'} patience r attached a polled c lt given =
      let (r', settled) = settle-IsBack (suc patience) health r attached polled.says c lt in
      (
        r',
        rw (call_or_stop-at r attached polled.calls, ◌>>=◌)
            (ready-round (suc patience) patience health w' r r' attached a polled.says settled
              given),
      )
