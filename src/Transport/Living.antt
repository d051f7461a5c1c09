-- ===== src/Transport/Living.antt =====
-- What the answer of a new master says: its last session exited with 0.
use pazuzu.Base.{
  ℕ, zero, suc, ◌≡◌, refl, ap, sym, inl, inr, Bool, true, false, not, ◌&&◌, [], ◌∷◌, Text, codes,
  is_nat, Bool-cases, has_substring, if◌then◌else◌,
}
use pazuzu.Errors.{Result, ok, err, is_timeout_error, is_connection_unavailable}
use pazuzu.Exec.{finally, after, ◌>>=◌}
use pazuzu.Exec.Ensures.{
  Ensures, Ensures-pure, Ensures-bind, Ensures-if, Ensures-raise, Ensures-reraise, Ensures-try,
  Ensures-gets-bind,
}
use pazuzu.Process.{ProcessResult}
use pazuzu.Lease.{SessionLease}
use pazuzu.Supervisor.{Outcome, is_ok, is_ambiguous}
use pazuzu.Transport.{
  OpenSshTransport, Step, Host, Site, perform, self, observe, session_argv, raise_master_error,
}
use pazuzu.Transport.Probing.{
  is_os_error, is_command_timed_out, session, probe_session, probe, classify_session, settle,
  probe_until_settled, wait_until_ready,
}

module _ {W : Type 0} (host : Host W) where
  -- The session of a probe, in a world.
  abbrev run_probe : OpenSshTransport → W → Result ProcessResult × W
  run_probe t w =
      host.run_process (session_argv t.settings (codes "true")) [] t.settings.probe_timeout
        t.settings.max_output_bytes w

  -- Nothing but giving back a slot has happened since a session over the master exited with 0.
  abbrev pub IsLive : Site W → Type 0
  IsLive site =
      (w w' : W) × (result : ProcessResult) × (lease : SessionLease) × (run_probe site.transport w
        ≡ (ok result, w'))
      × (is_nat result.exit_code 0 ≡ true)
      × ((host.release_probe lease w').1 ≡ site.world)

  abbrev Anything : Site W → Type 0
  Anything site = Unit

  abbrev Ran : Result ProcessResult → Site W → Type 0
  Ran (ok result) site = (w : W) × (run_probe site.transport w ≡ (ok result, site.world))
  Ran (err e) site = Unit

  abbrev Probed : Result Outcome → Site W → Type 0
  Probed (ok Outcome.ok) site =
      (w : W) × (result : ProcessResult) × (run_probe site.transport w ≡ (ok result, site.world))
      × (is_nat result.exit_code 0 ≡ true)
  Probed _ site = Unit

  abbrev Live : Result Outcome → Site W → Type 0
  Live (ok Outcome.ok) site = IsLive site
  Live _ site = Unit

  -- The site is that of the transport `t`.
  abbrev Of : OpenSshTransport → Site W → Type 0
  Of t site = site.transport ≡ t

  Ensures-run :
      (t t' : OpenSshTransport)
      → Ensures
          (λ site. Of t site × Of t' site)
          (perform (Step.run (session_argv t'.settings (codes "true"))) (
            host.run_process
              (session_argv t'.settings (codes "true"))
              []
              t.settings.probe_timeout
              t'.settings.max_output_bytes))
          Ran
  unfolding perform
  Ensures-run t t' = record {
    at = λ site (same, same').
        rw (sym same, sym same') (go site (run_probe site.transport site.world) refl);
  }
    where
      go :
          (site : Site W) (r : Result ProcessResult × W)
          → run_probe site.transport site.world ≡ r
          → Ran r.0 (record {
            transport = site.transport;
            world = r.1;
            trace = Step.run (session_argv site.transport.settings (codes "true")) ∷ site.trace;
          })
      go site (ok result, w) ran = (site.world, ran)
      go site (err e, w) ran = tt

  Ensures-session :
      (t : OpenSshTransport)
      → Ensures (Of t) (session host (codes "true") [] t.settings.probe_timeout) Ran
  unfolding session self
  Ensures-session t =
      Ensures-gets-bind (λ site. site.transport) _
        (λ t'.
          Ensures-try Ran _ _ _ (Ensures-run t t') (λ result. Ensures-pure result (λ site ran. ran))
            (λ e.
              Ensures-if (is_timeout_error e.kind) _ _ (λ _. Ensures-raise _ _ (λ _ _ _. tt))
                (λ _.
                  Ensures-if (is_os_error e.kind) _ _ (λ _. Ensures-raise _ _ (λ _ _ _. tt))
                    (λ _. Ensures-reraise e (λ _ _. tt)))))

  classified :
      (result : ProcessResult) (site : Site W)
      → Ran (ok result) site
      → Probed (ok (classify_session result)) site
  unfolding classify_session
  classified result site (w, ran) = elim (Bool-cases (is_nat result.exit_code 0)) [
    | inl zeroed ↦ rw zeroed (w, result, ran, zeroed)
    | inr other ↦ rw other (
        refused (
          is_nat result.exit_code 255
          && has_substring (codes "Session open refused by peer") result.stderr))
  ]
    where
      refused : (b : Bool) → Probed (ok (if b then Outcome.busy else Outcome.failed)) site
      refused true = tt
      refused false = tt

  Ensures-probe_session :
      (t : OpenSshTransport) → Ensures (Of t) (probe_session host t.settings.probe_timeout) Probed
  unfolding probe_session
  Ensures-probe_session t =
      Ensures-try Ran _ _ _ (Ensures-session t)
        (λ result. Ensures-pure (classify_session result) (λ site ran. classified result site ran))
        (λ e.
          Ensures-if (is_command_timed_out e.kind) _ _ (λ _. Ensures-pure Outcome.slow (λ _ _. tt))
            (λ _.
              Ensures-if (is_connection_unavailable e.kind) _ _
                (λ _. Ensures-pure Outcome.failed (λ _ _. tt))
                (λ _. Ensures-reraise e (λ _ _. tt))))

  -- The slot is given back.
  Ensures-given_back :
      (t : OpenSshTransport) (lease : SessionLease)
      → Ensures
          (Of t)
          (finally
            (probe_session host t.settings.probe_timeout)
            (perform Step.give_back_probe_slot (host.release_probe lease)))
          Live
  unfolding finally perform
  Ensures-given_back t lease = record {
    at = λ site same.
        let (r, site') = probe_session host t.settings.probe_timeout site in
        go r site' ((Ensures-probe_session t).at site same) (host.release_probe lease site'.world)
          refl;
  }
    where
      go :
          (r : Result Outcome) (site : Site W)
          → Probed r site
          → (q : Result (Unit {0}) × W) → host.release_probe lease site.world ≡ q
          → let released : Site W = record {
            transport = site.transport;
            world = q.1;
            trace = Step.give_back_probe_slot ∷ site.trace;
          } in
            Live (after r (q.0, released)).0 (after r (q.0, released)).1
      go (ok Outcome.ok) site p (ok _, w') same =
          (p.0, site.world, p.1, lease, p.2, p.3, ap (λ q. q.1) same)
      go (ok Outcome.slow) site _ (ok _, w') same = tt
      go (ok Outcome.busy) site _ (ok _, w') same = tt
      go (ok Outcome.failed) site _ (ok _, w') same = tt
      go (err e) site _ (ok _, w') same = tt
      go r site _ (err e, w') same = tt

  taken :
      (t : OpenSshTransport)
      → Ensures
          (λ site. Anything site × Of t site)
          (perform Step.take_probe_slot (host.acquire_probe t.budget t.settings.probe_timeout))
          (λ _ site. Of t site)
  unfolding perform
  taken t = record { at = λ site (_, same). same }

  Ensures-probe : Ensures Anything (probe host) Live
  unfolding probe self
  Ensures-probe =
      Ensures-gets-bind (λ site. site.transport) _
        (λ t.
          Ensures-try (λ _ site. Of t site) _ _ _ (taken t) (λ lease. Ensures-given_back t lease)
            (λ e.
              Ensures-if (is_timeout_error e.kind) _ _ (λ _. Ensures-pure Outcome.slow (λ _ _. tt))
                (λ _. Ensures-reraise e (λ _ _. tt))))

  Ensures-settle :
      (left : ℕ) (outcome : Outcome)
      → is_ok outcome ≡ false
      → Ensures Anything (settle host left outcome) Live
  unfolding settle
  Ensures-settle zero outcome unsure = Ensures-pure outcome (λ site _. dead outcome unsure site)
    where
      dead : (outcome : Outcome) → is_ok outcome ≡ false → (site : Site W) → Live (ok outcome) site
      dead Outcome.ok h site = absurd (cc h)
      dead Outcome.slow h site = tt
      dead Outcome.busy h site = tt
      dead Outcome.failed h site = tt
  Ensures-settle (suc left) outcome unsure =
      Ensures-bind (λ _ site. Anything site) _ _ (record { at = λ site _. tt })
        (λ _.
          Ensures-bind Live _ _ Ensures-probe
            (λ next.
              Ensures-if (is_ambiguous next) _ _
                (λ again. record {
                  at = λ site _. (Ensures-settle left next (ambiguous next again)).at site tt;
                })
                (λ _. Ensures-pure next (λ site live. live)))
            (λ e site _. tt))
        (λ e site _. tt)
    where
      ambiguous : (outcome : Outcome) → is_ambiguous outcome ≡ true → is_ok outcome ≡ false
      ambiguous Outcome.ok h = absurd (cc h)
      ambiguous Outcome.slow h = refl
      ambiguous Outcome.busy h = refl
      ambiguous Outcome.failed h = absurd (cc h)

  abbrev pub Answered : Result Bool → Site W → Type 0
  Answered (ok true) site = IsLive site
  Answered _ site = Unit

  Ensures-raised :
      {P : Site W → Type 0} (text : Text) → Ensures P (raise_master_error host text) Answered
  unfolding raise_master_error self observe ◌>>=◌
  Ensures-raised text = record { at = λ site _. tt }

  -- A wait that returns true has probed the master, and the session of its last probe exited with 0.
  pub Ensures-wait_until_ready :
      (rounds : ℕ) → Ensures Anything (wait_until_ready host rounds) Answered
  unfolding wait_until_ready probe_until_settled self observe
  Ensures-wait_until_ready rounds =
      Ensures-gets-bind (λ site. site.transport) _
        (λ t.
          Ensures-gets-bind (λ site. host.monotonic site.world) _
            (λ started.
              Ensures-bind (λ _ site. Anything site) _ _ (record { at = λ site _. tt })
                (λ answered.
                  Ensures-if (not answered) _ _ (λ _. Ensures-pure false (λ _ _. tt))
                    (λ _.
                      Ensures-bind Live _ _
                        (Ensures-gets-bind (λ site. site.transport) _
                          (λ t'. record {
                            at = λ site _.
                                (Ensures-settle t'.settings.probe_failures Outcome.failed refl).at
                                  site tt;
                          }))
                        (λ outcome.
                          Ensures-if (is_ok outcome) _ _
                            (λ fine. Ensures-pure true (λ site live. lives outcome fine site live))
                            (λ _. Ensures-raised _))
                        (λ e site _. tt)))
                (λ e site _. tt)))
    where
      lives :
          (outcome : Outcome)
          → is_ok outcome ≡ true
          → (site : Site W) → Live (ok outcome) site
          → IsLive site
      lives Outcome.ok fine site live = live
      lives Outcome.slow fine site live = absurd (cc fine)
      lives Outcome.busy fine site live = absurd (cc fine)
      lives Outcome.failed fine site live = absurd (cc fine)
