-- ===== src/Transport/Ownership.antt =====
-- Which processes a transport signals when it stops its master.
use pazuzu.Base.{
  ℕ, zero, suc, ◌≡◌, refl, sym, inl, inr, Bool, true, false, not, Option, none, some, List, ◌∷◌,
  Text, codes, arith, if◌then◌else◌,
}
use pazuzu.Errors.{Result, ok}
use pazuzu.Exec.{pure, gets, ◌>>=◌, ◌>>◌}
use pazuzu.Exec.Keeps.{Keeps, Keeps-pure, Keeps-bind, Keeps-if, keeps_rules}
use pazuzu.Exec.Ensures.{Ensures, Ensures-pure, Ensures-bind, Ensures_of_Keeps}
use pazuzu.Transport.{OpenSshTransport, Step, Host, Site, Method, perform, self, observe}
use pazuzu.Transport.Probing.{control_command, control_check}
use pazuzu.Transport.Mastering.{
  Posix, read_owner, update, outside, pause, is_recorded, verify, terminate, kill, recorded_rounds,
  stop_verified, stop_recorded_master, stop_process, stop_owned_master, release_master_state,
  stop_master, master_owner_file,
}
use pazuzu.Transport.Signals.{
  IsAuthorized, Authorized, Sure, Keeps-terminate, Keeps-kill, Keeps-pause, Keeps-stop_process,
}

module _ {W : Type 0} (host : Host W) (posix : Posix W) (own : Option ℕ) where
  module _ (pid : ℕ) where
    -- What a verification leaves, by its answer.
    abbrev Verified : Result Bool → Site W → Type 0
    Verified (ok true) site = Sure host posix own pid site
    Verified _ site = Authorized host posix own site

    -- What a loop leaves that says whether the process is gone.
    abbrev Waited : Result Bool → Site W → Type 0
    Waited (ok false) site = Sure host posix own pid site
    Waited _ site = Authorized host posix own site

    Ensures-verify : Ensures (Authorized host posix own) (verify host posix pid) Verified
    unfolding verify
    Ensures-verify = record {
      at =
          λ site fine. go (is_recorded host posix site.transport.settings pid site.world) site fine;
    }
      where
        go :
            (answer : Bool) (site : Site W)
            → IsAuthorized own site.trace
            → Verified (ok answer) (record site { trace = Step.verify pid answer ∷ site.trace })
        go true site fine = (inr (ground arith), fine)
        go false site fine = fine

    Ensures-recorded_rounds :
        (rounds : ℕ)
        → Ensures (Sure host posix own pid) (recorded_rounds host posix rounds pid) Waited
    unfolding recorded_rounds
    Ensures-recorded_rounds zero = Ensures-pure false (λ site sure. sure)
    Ensures-recorded_rounds (suc rounds) =
        Ensures-bind Verified _ _ (record { at = λ site (_, fine). Ensures-verify.at site fine })
          (go (Ensures-recorded_rounds rounds)) (λ e site fine. fine)
      where
        go :
            Ensures (Sure host posix own pid) (recorded_rounds host posix rounds pid) Waited
            → (there : Bool)
            → Ensures
                (Verified (ok there))
                (if not there
                  then pure true
                  else pause host posix >> recorded_rounds host posix rounds pid)
                Waited
        go rest false = Ensures-pure true (λ site fine. fine)
        go rest true =
            Ensures-bind (λ _ site. Sure host posix own pid site) _ _
              (Ensures_of_Keeps _ (Keeps-pause host posix own pid) (λ r site h. h)) (λ _. rest)
              (λ e site (_, fine). fine)

    -- After a verification that says yes.
    Ensures-verified :
        Ensures
          (Sure host posix own pid)
          (terminate host posix pid >>= λ _. recorded_rounds host posix 20 pid >>= λ gone.
            if gone then pure tt else kill host posix pid)
          (λ _ site. Authorized host posix own site)
    Ensures-verified =
        Ensures-bind (λ _ site. Sure host posix own pid site) _ _
          (Ensures_of_Keeps _ (Keeps-terminate host posix own pid) (λ r site h. h))
          (λ _. Ensures-bind Waited _ _ (Ensures-recorded_rounds 20) go (λ e site fine. fine))
          (λ e site (_, fine). fine)
      where
        go :
            (gone : Bool)
            → Ensures
                (Waited (ok gone))
                (if gone then pure tt else kill host posix pid)
                (λ _ site. Authorized host posix own site)
        go true = Ensures-pure tt (λ site fine. fine)
        go false = Ensures_of_Keeps _ (Keeps-kill host posix own pid) (λ r site (_, fine). fine)

    Ensures-stop_verified :
        Ensures
          (Authorized host posix own)
          (stop_verified host posix pid)
          (λ _ site. Authorized host posix own site)
    unfolding stop_verified
    Ensures-stop_verified = Ensures-bind Verified _ _ Ensures-verify go (λ e site fine. fine)
      where
        go :
            (there : Bool)
            → Ensures
                (Verified (ok there))
                (if not there
                  then pure tt
                  else terminate host posix pid >>= λ _.
                      recorded_rounds host posix 20 pid >>= λ gone.
                      if gone then pure tt else kill host posix pid)
                (λ _ site. Authorized host posix own site)
        go true = Ensures-verified
        go false = Ensures-pure tt (λ site fine. fine)

  Keeps-update :
      (f : OpenSshTransport → OpenSshTransport) → Keeps (Authorized host posix own) (update f)
  unfolding update
  Keeps-update f = record { at = λ site h. h }

  Keeps-outside :
      {A : Type 0} (f : W → Result A × W) → Keeps (Authorized host posix own) (outside host posix f)
  unfolding outside
  Keeps-outside f = record { at = λ site h. h }

  Keeps-look : {A : Type 0} (f : W → A) → Keeps (Authorized host posix own) (observe f)
  unfolding observe gets
  Keeps-look f = record { at = λ site h. h }

  Keeps-self : Keeps (Authorized host posix own) (self {W = W})
  unfolding self gets
  Keeps-self = record { at = λ site h. h }

  Keeps-stop_recorded_master : Keeps (Authorized host posix own) (stop_recorded_master host posix)
  unfolding stop_recorded_master
  Keeps-stop_recorded_master = Keeps-bind _ _ Keeps-self (λ t.
      Keeps-bind _ _ (Keeps-look (posix.read_text (master_owner_file t.settings.control_path)))
        (λ content. go (read_owner content)))
    where
      go :
          (found : Option ℕ)
          → Keeps
              (Authorized host posix own)
              (elim found [ none ↦ pure tt | some pid ↦ stop_verified host posix pid ])
      go none = Keeps-pure tt
      go (some pid) = record { at = (Ensures-stop_verified pid).at }

  Keeps-release_master_state : Keeps (Authorized host posix own) (release_master_state host posix)
  unfolding release_master_state
  Keeps-release_master_state =
      search (keeps_rules, Keeps-update, Keeps-self, Keeps-outside) depth 20

  -- The same, while the transport still has its own process.
  abbrev Owned : Site W → Type 0
  Owned site = (site.transport.master ≡ own) × IsAuthorized own site.trace

  Keeps-own_self : Keeps Owned (self {W = W})
  unfolding self gets
  Keeps-own_self = record { at = λ site h. h }

  Keeps-own_look : {A : Type 0} (f : W → A) → Keeps Owned (observe f)
  unfolding observe gets
  Keeps-own_look f = record { at = λ site h. h }

  Keeps-run :
      {A : Type 0} (argv : List Text) (f : W → Result A × W)
      → Keeps Owned (perform (Step.run argv) f)
  unfolding perform
  Keeps-run argv f = record { at = λ site h. h }

  Keeps-control_command : (operation : Text) → Keeps Owned (control_command host operation)
  unfolding control_command
  Keeps-control_command operation = search (keeps_rules, Keeps-own_self, Keeps-run) depth 20

  Keeps-control_check : Keeps Owned (control_check host)
  unfolding control_check
  Keeps-control_check =
      search (keeps_rules, Keeps-own_self, Keeps-own_look, Keeps-control_command) depth 20

  -- The process that it takes out is its own.
  Ensures-stop_owned_master :
      Ensures Owned (stop_owned_master host posix) (λ _ site. Authorized host posix own site)
  unfolding stop_owned_master self gets update ◌>>=◌
  Ensures-stop_owned_master = record {
    at = λ site (mine, fine).
        go site.transport.master mine
          (record site { transport = record site.transport { master = none } }) fine;
  }
    where
      go :
          (master : Option ℕ)
          → master ≡ own
          → (site : Site W) → IsAuthorized own site.trace
          → IsAuthorized own
              ((elim master as (λ _. Method W (Unit {0})) [
                | none ↦ pure tt
                | some pid ↦ stop_process host posix pid
              ])
                site).1.trace
      go none mine site fine = fine
      go (some pid) mine site fine =
          ((Keeps-stop_process host posix own pid).at site (inl (sym mine), fine)).1

  Ensures-stop_master :
      Ensures Owned (stop_master host posix) (λ _ site. Authorized host posix own site)
  unfolding stop_master
  Ensures-stop_master =
      Ensures-bind (λ _ site. Owned site) _ _
        (Ensures_of_Keeps _ Keeps-control_check (λ r site h. h))
        (λ answers.
          Ensures-bind (λ _ site. Owned site) _ _
            (Ensures_of_Keeps _ (exits answers) (λ r site h. h))
            (λ _.
              Ensures-bind (λ _ site. Authorized host posix own site) _ _ Ensures-stop_owned_master
                (λ _.
                  Ensures_of_Keeps _
                    (Keeps-bind _ _ Keeps-stop_recorded_master (λ _. Keeps-release_master_state))
                    (λ r site h. h))
                (λ e site h. h))
            (λ e site (_, fine). fine))
        (λ e site (_, fine). fine)
    where
      exits :
          (answers : Bool)
          → Keeps Owned
              (if answers then control_command host (codes "exit") >> pure tt else pure tt)
      exits answers =
          Keeps-if answers _ _
            (λ _. Keeps-bind _ _ (Keeps-control_command (codes "exit")) (λ _. Keeps-pure tt))
            (λ _. Keeps-pure tt)

-- However `stop_master` ends, it signals no process but the one that the transport itself started and
-- those whose last verification before the signal found them to be the master that the receipt
-- records.
pub stop_master-IsAuthorized :
    {W : Type 0} (host : Host W) (posix : Posix W) (site : Site W)
    → IsAuthorized site.transport.master site.trace
    → IsAuthorized site.transport.master (stop_master host posix site).1.trace
stop_master-IsAuthorized host posix site fine =
    (Ensures-stop_master host posix site.transport.master).at site (refl, fine)
