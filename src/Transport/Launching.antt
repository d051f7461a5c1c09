-- ===== src/Transport/Launching.antt =====
-- `start_master` up to the process of the master.
use pazuzu.Base.{
  ℕ, ◌+◌, ◌*◌, ◌≤◌, ◌≡◌, refl, ◌++◌, inr, true, false, none, List, ◌∷◌, Text, codes, if◌then◌else◌,
}
use pazuzu.Errors.{Kind, Exception, Result, ok, err, is_connection_unavailable}
use pazuzu.Exec.{reraise, raise, modify, ◌>>=◌, ◌>>◌}
use pazuzu.Exec.Ensures.{
  Ensures, Ensures-pure, Ensures-bind, Ensures-if, Ensures-reraise, Ensures-raise, Ensures-try,
}
use pazuzu.Transport.{OpenSshTransport, Step, Host, Site, Method, master_argv}
use pazuzu.Transport.Probing.{is_os_error}
use pazuzu.Transport.Mastering.{Posix, update, release_master_state}
use pazuzu.Transport.Startup.{launch_master, spawn_master, has_returned}
use pazuzu.Transport.Foreign.{
  IsForeign, IsPosix, IsOsCall-IsForeign, is_reaped, Plain, after_plain, Plain-self, Plain-update,
  Plain-observe, Plain-outside,
}
use pazuzu.Transport.Releasing.{Failed, HasMaster, Failed-foreign, Ensures-release, after_release}

module _ {W : Type 0} (host : Host W) (posix : Posix W) (is_posix : IsPosix posix)
    (rounds : ℕ) where
  -- The rounds are enough for the timeout of the connection.
  abbrev pub IsPatient : OpenSshTransport → Type 0
  IsPatient t = t.settings.connect_timeout + 5_000 ≤ 100 * rounds

  abbrev pub Ready : OpenSshTransport → Type 0
  Ready t = (t.master ≡ none) × IsPatient t

  abbrev pub Opened : OpenSshTransport → Type 0
  Opened t = Ready t × (t.log_open ≡ true)

  abbrev pub Running : OpenSshTransport → Type 0
  Running t = HasMaster host posix is_posix t × IsPatient t

  abbrev pub Launched : Result ℕ → Site W → Type 0
  Launched (ok pid) site = Opened site.transport
  Launched (err e) site = Failed host posix is_posix e site

  fails-Ready :
      (e : Exception) (site : Site W)
      → Ready site.transport
      → is_connection_unavailable e.kind ≡ false
      → Failed host posix is_posix e site
  fails-Ready e site p foreign = Failed-foreign host posix is_posix e site p.0 foreign

  abbrev Spawned : Result ℕ → Site W → Type 0
  Spawned (ok pid) site = Opened site.transport
  Spawned (err e) site =
      Opened site.transport
      × (is_reaped site.trace ≡ true)
      × (is_connection_unavailable e.kind ≡ false)

  Ensures-spawn :
      (argv : List Text)
      → Ensures (λ site. Opened site.transport) (spawn_master host posix argv) Spawned
  unfolding spawn_master
  Ensures-spawn argv = record {
    at = λ site p. go site p (posix.spawn argv site.world) (is_posix.spawns argv site.world);
  }
    where
      go :
          (site : Site W)
          → Opened site.transport
          → (r : Result ℕ × W) → IsForeign r.0
          → Spawned r.0 (record {
            transport = site.transport;
            world = r.1;
            trace = Step.spawn (has_returned r.0) ∷ site.trace;
          })
      go site p (ok pid, w) foreign = p
      go site p (err e, w) foreign = (p, refl, foreign)

  Ensures-open :
      Ensures
        (λ site. Ready site.transport)
        (update {W = W} (λ t. record t { log_open = true }))
        (λ r site. Opened site.transport × IsForeign r)
  unfolding update modify
  Ensures-open = record { at = λ site p. ((p, refl), tt) }

  pub Ensures-launch : Ensures (λ site. Ready site.transport) (launch_master host posix) Launched
  unfolding launch_master
  Ensures-launch = before _ _ (Plain-self host posix is_posix Ready) (λ t.
      before _ _
        (Plain-outside host posix is_posix Ready _
          (λ w. IsOsCall-IsForeign _ (is_posix.unlinks _ w)))
        (λ _. before _ _ (Plain-update host posix is_posix Ready _ (λ t p. p)) (λ _.
          before _ _ (Plain-observe host posix is_posix Ready _) (λ path.
            before _ _ (Plain-update host posix is_posix Ready _ (λ t p. p)) (λ _.
              before _ _ (Plain-outside host posix is_posix Ready _ (is_posix.opens path)) (λ _.
                Ensures-bind (λ r site. Opened site.transport × IsForeign r) _ _ Ensures-open
                  (λ _.
                    Ensures-try Spawned _ _ _
                      (record {
                        at = λ site p.
                            (Ensures-spawn (master_argv host.format_seconds t.settings)).at site
                              p.0;
                      })
                      (λ pid. Ensures-pure pid (λ site p. p)) failed)
                  (λ e site p. fails-Ready e site p.0.0 p.1)))))))
    where
      before :
          {A : Type 0} (m : Method W A) (next : A → Method W ℕ)
          → Plain host posix is_posix Ready m
          → ((a : A) → Ensures (λ site. Ready site.transport) (next a) Launched)
          → Ensures (λ site. Ready site.transport) (m >>= next) Launched
      before m next h hs = after_plain host posix is_posix Ready m next h hs fails-Ready

      failed :
          (e : Exception)
          → Ensures
              (Spawned (err e))
              (if is_os_error e.kind
                then release_master_state host posix
                  >> raise Kind.connection_unavailable
                      (codes "could not launch OpenSSH master: " ++ e.message)
                else reraise e)
              Launched
      failed e =
          Ensures-if (is_os_error e.kind) _ _
            (λ _.
              after_release host posix is_posix _ _
                (Ensures-release host posix is_posix (λ site p. (p.0.0.0, p.1)))
                (Ensures-raise _ _ (λ e site p. (p.0, inr p.1))) (λ e site p. p))
            (λ _. Ensures-reraise e (λ site p. fails-Ready e site p.0.0 p.2))
