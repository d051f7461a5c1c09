-- ===== src/Transport/Releasing.antt =====
-- What a start that fails undoes: what is left of the master, and what `abandon` ensures.
use pazuzu.Base.{Text, ℕ, ◌≡◌, refl, ◌⊎◌, inl, Bool, true, false, Option, none, some, is_some}
use pazuzu.Errors.{Exception, Result, ok, err, is_connection_unavailable}
use pazuzu.Exec.{pure, modify, gets, ◌>>=◌, ◌>>◌}
use pazuzu.Exec.Ensures.{Ensures, Ensures-bind, Ensures-gets-bind}
use pazuzu.Transport.{OpenSshTransport, Host, Site, Method, self}
use pazuzu.Transport.Mastering.{
  Posix, update, outside, master_owner_file, stop_process, stop_owned_master, release_master_state,
}
use pazuzu.Transport.Startup.{abandon}
use pazuzu.Transport.Living.{IsLive}
use pazuzu.Transport.Foreign.{
  IsPosix, IsForeign, IsOsCall-IsForeign, is_reaped, Reaps, Reaps-stop_process,
}

-- Nothing of a master is left: its log is closed, and its process was waited for, or could not be
-- started.
abbrev pub IsReleased : {W : Type 0} → Site W → Type 0
IsReleased site =
    (site.transport.log_path ≡ none)
    × (site.transport.log_open ≡ false)
    × (is_reaped site.trace ≡ true)

-- A start that returns leaves a master over which a session exited with 0, and its open log. After
-- one that raises the transport holds no master, and after one that raises ConnectionUnavailable
-- nothing of it.
abbrev pub IsStarted : {W : Type 0} → Host W → Result Bool → Site W → Type 0
IsStarted host (ok answered) site =
    (answered ≡ true)
    × IsLive host site
    × (is_some site.transport.master ≡ true)
    × (site.transport.log_open ≡ true)
IsStarted host (err e) site =
    (site.transport.master ≡ none) × ((is_connection_unavailable e.kind ≡ false) ⊎ IsReleased site)

module _ {W : Type 0} (host : Host W) (posix : Posix W) (is_posix : IsPosix posix) where
  -- Nothing is left, or the exception of an attempt to stop the process comes out.
  abbrev Released : Result (Unit {0}) → Site W → Type 0
  Released (ok _) site = (site.transport.master ≡ none) × IsReleased site
  Released (err e) site =
      (site.transport.master ≡ none) × (is_connection_unavailable e.kind ≡ false)

  -- A start that raised.
  abbrev pub Failed : Exception → Site W → Type 0
  Failed e site =
      (site.transport.master ≡ none)
      × ((is_connection_unavailable e.kind ≡ false) ⊎ IsReleased site)

  abbrev HasNone : OpenSshTransport → Type 0
  HasNone t = t.master ≡ none

  -- A transport with a master.
  abbrev pub HasMaster : OpenSshTransport → Type 0
  HasMaster t = (is_some t.master ≡ true) × (t.log_open ≡ true)

  pub Failed-foreign :
      (e : Exception) (site : Site W)
      → site.transport.master ≡ none
      → is_connection_unavailable e.kind ≡ false
      → Failed e site
  Failed-foreign e site gone foreign = (gone, inl foreign)

  abbrev Clean : Site W → Type 0
  Clean site = (site.transport.master ≡ none) × IsReleased site

  Ensures-unlink : (path : Text) → Ensures Clean (outside host posix (posix.unlink path)) Released
  unfolding outside
  Ensures-unlink path = record {
    at = λ site clean.
        go site clean (posix.unlink path site.world)
          (IsOsCall-IsForeign _ (is_posix.unlinks path site.world));
  }
    where
      go :
          (site : Site W)
          → Clean site
          → (r : Result (Unit {0}) × W) → IsForeign r.0
          → Released r.0 (record site { world = r.1 })
      go site clean (ok _, w) foreign = clean
      go site clean (err e, w) foreign = (clean.0, foreign)

  pub Ensures-release :
      {P : Site W → Type 0}
      → ((site : Site W) → P site → (site.transport.master ≡ none) × (is_reaped site.trace ≡ true))
      → Ensures P (release_master_state host posix) Released
  unfolding release_master_state update self modify
  Ensures-release h =
      Ensures-bind Released _ _
        (record { at = λ site p. ((h site p).0, (refl, refl, (h site p).1)) })
        (λ _.
          Ensures-gets-bind (λ site. site.transport) _
            (λ t.
              Ensures-bind Released _ _
                (record { at = λ site p. (Ensures-unlink t.settings.control_path).at site p.0 })
                (λ _. Ensures-unlink (master_owner_file t.settings.control_path)) (λ e site p. p)))
        (λ e site p. p)

  Ensures-stop_owned :
      Ensures
        (λ site. HasMaster site.transport)
        (stop_owned_master host posix)
        (Reaps host posix is_posix HasNone)
  unfolding stop_owned_master self gets update modify ◌>>=◌
  Ensures-stop_owned = record {
    at = λ site has.
        go site.transport.master has.0
          (record site { transport = record site.transport { master = none } }) refl;
  }
    where
      go :
          (master : Option ℕ)
          → is_some master ≡ true
          → (site : Site W) → site.transport.master ≡ none
          → let m = elim master as (λ _. Method W (Unit {0})) [
            | none ↦ pure tt
            | some pid ↦ stop_process host posix pid
          ] in
            Reaps host posix is_posix HasNone (m site).0 (m site).1
      go none there site gone = absurd (cc there)
      go (some pid) there site gone =
          (Reaps-stop_process host posix is_posix HasNone pid).at site gone

  pub Ensures-abandon : Ensures (λ site. HasMaster site.transport) (abandon host posix) Released
  unfolding abandon
  Ensures-abandon =
      Ensures-bind (Reaps host posix is_posix HasNone) _ _ Ensures-stop_owned
        (λ _. Ensures-release (λ site p. p)) (λ e site p. p)

  -- What follows the release of what a start made, and raises.
  pub after_release :
      {A : Type 0} {P : Site W → Type 0} {Q : Result A → Site W → Type 0} (m : Method W (Unit {0}))
      (next : Method W A)
      → Ensures P m Released
      → Ensures (Released (ok tt)) next Q
      → ((e : Exception) (site : Site W) → Failed e site → Q (err e) site)
      → Ensures P (m >> next) Q
  after_release m next released raises fails =
      Ensures-bind Released m _ released (λ _. raises)
        (λ e site p. fails e site (Failed-foreign e site p.0 p.1))
