-- ===== src/Transport/Settling.antt =====
-- The probes of a master: the reserved slot is given back, and only a master that stays slow or
-- refuses is probed again.
use pazuzu.Base.{
  ℕ, zero, suc, ◌+◌, ◌≤◌, ◌≡◌, refl, ap, ◌∙◌, true, false, List, [], ◌∷◌, codes, arith,
}
use pazuzu.Errors.{Exception, Result, ok, err}
use pazuzu.Exec.{handle, finally, ◌>>=◌}
use pazuzu.Exec.Ensures.{Ensures, Ensures-pure, Ensures-if, Ensures-bind}
use pazuzu.Lease.{SessionLease}
use pazuzu.Supervisor.{Outcome, is_ambiguous}
use pazuzu.Transport.{
  OpenSshTransport, Step, Host, Site, perform, self, observe, session_argv, raise_master_error,
}
use pazuzu.Transport.Probing.{
  session, probe_session, probe, raise_if_master_exited, settle, probe_until_settled,
}

-- How many probes asked for the slot.
abbrev pub probes : List Step → ℕ
probes [] = 0
probes (Step.take_probe_slot ∷ trace) = suc (probes trace)
probes (_ ∷ trace) = probes trace

-- After `n` probes, with `left` to go.
abbrev pub Settled : ℕ → ℕ → Result Outcome → ℕ → Type 0
Settled n left (ok outcome) k = (k ≤ n + left) × (is_ambiguous outcome ≡ true → k ≡ n + left)
Settled n left (err e) k = k ≤ n + left

module _ {W : Type 0} (host : Host W) where
  session_trace :
      (timeout : ℕ) (site : Site W)
      → (probe_session host timeout site).1.trace
        ≡ Step.run (session_argv site.transport.settings (codes "true")) ∷ site.trace
  unfolding probe_session session self perform ◌>>=◌ handle
  session_trace timeout site = ground arith

  -- A probe that gets the slot runs one session and gives the slot back, however the session ends; one
  -- that does not runs nothing.
  pub probe_trace :
      (site : Site W)
      → let t = site.transport in
        (((lease : SessionLease)
            → (host.acquire_probe t.budget t.settings.probe_timeout site.world).0 ≡ ok lease
            → (probe host site).1.trace
              ≡ Step.give_back_probe_slot
                ∷ Step.run (session_argv t.settings (codes "true"))
                ∷ Step.take_probe_slot
                ∷ site.trace)
          × ((e : Exception)
              → (host.acquire_probe t.budget t.settings.probe_timeout site.world).0 ≡ err e
              → (probe host site).1.trace ≡ Step.take_probe_slot ∷ site.trace))
  unfolding probe self perform ◌>>=◌ handle finally
  probe_trace site = (granted, refused)
    where
      t : OpenSshTransport
      t = site.transport

      taken : Site W
      taken = record {
        transport = t;
        world = (host.acquire_probe t.budget t.settings.probe_timeout site.world).1;
        trace = Step.take_probe_slot ∷ site.trace;
      }

      granted :
          (lease : SessionLease)
          → (host.acquire_probe t.budget t.settings.probe_timeout site.world).0 ≡ ok lease
          → (probe host site).1.trace
            ≡ Step.give_back_probe_slot
              ∷ Step.run (session_argv t.settings (codes "true"))
              ∷ Step.take_probe_slot
              ∷ site.trace
      granted lease h = rw h (ground (arith, session_trace t.settings.probe_timeout taken))

      refused :
          (e : Exception)
          → (host.acquire_probe t.budget t.settings.probe_timeout site.world).0 ≡ err e
          → (probe host site).1.trace ≡ Step.take_probe_slot ∷ site.trace
      refused e h = rw h (ground arith)

  probes-probe : (site : Site W) → probes (probe host site).1.trace ≡ suc (probes site.trace)
  probes-probe site = go _ refl
    where
      t : OpenSshTransport
      t = site.transport

      go :
          (r : Result SessionLease)
          → (host.acquire_probe t.budget t.settings.probe_timeout site.world).0 ≡ r
          → probes (probe host site).1.trace ≡ suc (probes site.trace)
      go (ok lease) h = let e = (probe_trace site).0 lease h in rw e refl
      go (err x) h = let e = (probe_trace site).1 x h in rw e refl

  probes-raise_if :
      (site : Site W) → probes (raise_if_master_exited host site).1.trace ≡ probes site.trace
  unfolding raise_if_master_exited raise_master_error self observe ◌>>=◌
  probes-raise_if site = ground arith

  widen :
      (n left : ℕ) (r : Result Outcome) (k : ℕ)
      → Settled (suc n) left r k
      → Settled n (suc left) r k
  widen n left (ok outcome) k h = ground arith
  widen n left (err e) k h = omega arith

  settled :
      (n left : ℕ) (outcome : Outcome) (k : ℕ)
      → is_ambiguous outcome ≡ false
      → k ≡ suc n
      → Settled n (suc left) (ok outcome) k
  settled n left outcome k h e = ground arith

  Ensures-settle :
      (left n : ℕ) (outcome : Outcome)
      → Ensures
          (λ site. probes site.trace ≡ n)
          (settle host left outcome)
          (λ r site. Settled n left r (probes site.trace))
  unfolding settle
  Ensures-settle zero n outcome = Ensures-pure outcome (λ site h. ground arith)
  Ensures-settle (suc left) n outcome =
      Ensures-bind (λ _ site. probes site.trace ≡ n) _ _
        (record { at = λ site h. probes-raise_if site ∙ h })
        (λ _.
          Ensures-bind (λ _ site. probes site.trace ≡ suc n) _ _
            (record { at = λ site h. probes-probe site ∙ ap suc h })
            (λ next.
              Ensures-if (is_ambiguous next) _ _
                (λ _. record {
                  at = λ site h.
                      let ih = Ensures-settle left (suc n) next in widen n left _ _ (ih.at site h);
                })
                (λ calm. Ensures-pure next (λ site h. settled n left next _ calm h)))
            (λ e site h. omega arith))
        (λ e site h. omega arith)

  -- A master is probed at most `probe_failures` times in a row; the verdict is slow or busy only
  -- after just so many probes.
  pub probe_until_settled_lem :
      (site : Site W)
      → let (r, site') = probe_until_settled host site in
        Settled (probes site.trace) site.transport.settings.probe_failures r (probes site'.trace)
  unfolding probe_until_settled self ◌>>=◌
  probe_until_settled_lem site =
      (Ensures-settle site.transport.settings.probe_failures (probes site.trace) Outcome.failed).at
        site refl
