-- ===== src/Supervisor/Verdicts.antt =====
-- What each verdict of the locked part of `_check` means.
use pazuzu.Base.{◌<◌, ◌≡◌, true, arith, ◌∷◌}
use pazuzu.Errors.{ok}
use pazuzu.Exec.{◌>>=◌}
use pazuzu.Supervisor.{Outcome, Verdict, is_ambiguous}
use pazuzu.Supervisor.Machine.{Call, Env, Machine, call, self}
use pazuzu.Supervisor.Repair.{check_locked}

module _ {W : Type 0} (env : Env W) (outcome : Outcome) (m : Machine W) where
  -- The test for keeping a master that answers although its probe did not settle.
  abbrev pub IsTolerated : Type 0
  IsTolerated =
      (is_ambiguous outcome ≡ true)
      × (m.sup.probe_failures < m.sup.settings.probe_failures)
      × ((env.control_check m.sup m.world).0 ≡ ok true)

  -- A master whose probe was slow or refused is kept, with nothing stopped or started, if the
  -- failures in a row are still fewer than `probe_failures` and its control socket answers.
  pub check_locked_degraded :
      IsTolerated
      → let (r, m') = check_locked env outcome m.sup.repair_epoch m in
        (r ≡ ok Verdict.degraded) × (m'.trace ≡ Call.control_check ∷ m.trace)
  unfolding check_locked ◌>>=◌ self call
  check_locked_degraded (a, b, c) = ground arith
