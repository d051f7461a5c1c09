-- ===== src/Process/Stopping.antt =====
-- process.py: which calls `stop_process` makes before it returns.
use pazuzu.Base.{◌≡◌, refl, sym, ap, ◌⊎◌, inl, inr, Bool, true, false, is_some}
use pazuzu.Errors.{Exception, Result, ok, err, is_timeout_error}
use pazuzu.Exec.{Exec}
use pazuzu.Exec.Ensures.{
  Ensures, Ensures-pure, Ensures-bind, Ensures-if, Ensures-reraise, Ensures-try, Ensures-gets-bind,
}
use pazuzu.Process.Running.{Group, IsWaited, suppress_lookup, stop_process, stop_process_ended}

module _ {W : Type 0} (g : Group W) (v : W) where
  -- The worlds after the first signal, the wait for two seconds, the kill, and the wait for that.
  abbrev pub terminated : W
  terminated = (g.terminate v).1

  abbrev pub awaited : Result (Unit {0}) × W
  awaited = g.wait_within 2_000 terminated

  abbrev pub killed : Result (Unit {0}) × W
  killed = g.wait (g.kill awaited.1).1

  -- The process had a return code, and nothing was done; or it was sent the first signal and ended in
  -- two seconds; or it did not, and was killed and waited for.
  abbrev pub IsStopped : W → Type 0
  IsStopped w =
      ((is_some (g.returncode v) ≡ true) × (w ≡ v))
      ⊎ ((is_some (g.returncode v) ≡ false) × (awaited.0 ≡ ok tt) × (w ≡ awaited.1))
      ⊎ ((is_some (g.returncode v) ≡ false)
          × ((e : Exception) × (awaited.0 ≡ err e) × (is_timeout_error e.kind ≡ true))
          × (w ≡ killed.1))

  abbrev Stops : Result (Unit {0}) → W → Type 0
  Stops (ok _) w = IsStopped w
  Stops (err e) w = Unit

  exactly :
      (u : W) (m : Exec W (Unit {0}))
      → Ensures (λ w. w ≡ u) m (λ r w. (r ≡ (m u).0) × (w ≡ (m u).1))
  exactly u m = record { at = λ w same. (ap (λ x. (m x).0) same, ap (λ x. (m x).1) same) }

  suppressed :
      (u : W) (m : Exec W (Unit {0}))
      → Ensures (λ w. w ≡ u) (suppress_lookup g m) (λ _ w. w ≡ (m u).1)
  unfolding suppress_lookup
  suppressed u m =
      Ensures-try (λ r w. (r ≡ (m u).0) × (w ≡ (m u).1)) _ _ _ (exactly u m)
        (λ _. Ensures-pure tt (λ w p. p.1))
        (λ e.
          Ensures-if _ _ _ (λ _. Ensures-pure tt (λ w p. p.1))
            (λ _. Ensures-reraise e (λ w p. p.1)))

  Ensures-Stops : Ensures (λ w. w ≡ v) (stop_process g) Stops
  unfolding stop_process
  Ensures-Stops = Ensures-gets-bind g.returncode _ (λ code.
      Ensures-if (is_some code) _ _
        (λ there. Ensures-pure tt (λ w (same, now). inl (known code w there same now, same)))
        (λ absent.
          Ensures-bind (λ _ w. (w ≡ terminated) × (is_some (g.returncode v) ≡ false)) _ _
            (record {
              at = λ w (same, now).
                  ((suppressed v g.terminate).at w same, known code w absent same now);
            })
            (λ _.
              Ensures-try
                (λ r w. (r ≡ awaited.0) × (w ≡ awaited.1) × (is_some (g.returncode v) ≡ false)) _ _
                _
                (record {
                  at = λ w (same, running).
                      let p = (exactly terminated (g.wait_within 2_000)).at w same in
                      (p.0, p.1, running);
                })
                (λ _. Ensures-pure tt (λ w p. inr (inl (p.2, sym p.0, p.1))))
                (λ e.
                  Ensures-if (is_timeout_error e.kind) _ _
                    (λ slow.
                      Ensures-bind
                        (λ _ w.
                          (w ≡ (g.kill awaited.1).1)
                          × (awaited.0 ≡ err e)
                          × (is_some (g.returncode v) ≡ false))
                        _ _
                        (record {
                          at = λ w p. ((suppressed awaited.1 g.kill).at w p.1, sym p.0, p.2);
                        })
                        (λ _. record {
                          at = λ w p. reaped e slow (g.wait w) p.2 p.1 (ap (λ x. (g.wait x).1) p.0);
                        })
                        (λ e' w p. tt))
                    (λ _. Ensures-reraise e (λ w p. tt))))
            (λ e w p. tt)))
    where
      known :
          (code : _) (w : W) {b : Bool}
          → is_some code ≡ b
          → w ≡ v
          → g.returncode w ≡ code
          → is_some (g.returncode v) ≡ b
      known code w there same now = rw (sym same, now) there

      reaped :
          (e : Exception)
          → is_timeout_error e.kind ≡ true
          → (r : Result (Unit {0}) × W) → is_some (g.returncode v) ≡ false
          → awaited.0 ≡ err e
          → r.1 ≡ killed.1
          → Stops r.0 r.1
      reaped e slow (ok _, w) running late same = inr (inr (running, (e, late, slow), same))
      reaped e slow (err e', w) running late same = tt

-- Where `stop_process` returns, its process has a return code, and one of three things has happened:
-- it had one before, and nothing was done; it was sent the first signal and ended within two
-- seconds; or it did not, and was killed and waited for. This needs that a process that was waited
-- for has a return code.
pub stop_process-IsStopped :
    {W : Type 0} (g : Group W) (waited : IsWaited g) (w : W)
    → (stop_process g w).0 ≡ ok tt
    → IsStopped g w (stop_process g w).1 × (is_some (g.returncode (stop_process g w).1) ≡ true)
stop_process-IsStopped g waited w h =
    (go (stop_process g w) ((Ensures-Stops g w).at w refl) h, stop_process_ended g waited w h)
  where
    go : (r : Result (Unit {0}) × _) → Stops g w r.0 r.1 → r.0 ≡ ok tt → IsStopped g w r.1
    go (ok _, w') stops same = stops
    go (err e, w') stops same = absurd (cc same)
