-- ===== src/Runner/Run/Resume.antt =====
-- What `resume` does to the shield.
use bootmux.Base.{◌≡◌, refl, true, false, some, String, arith}
use bootmux.Runner.Data.{Bench, Runner, can_resume_from, last_event}
use bootmux.Runner.Run.{resumed, resume, close_if_armed}
use bootmux.Runner.Shield.{shield_is_armed, step_shield_close, step_shield_purge}

module _ (bench : Bench) where
  close_if_armed-dry :
      (r : Runner) (s : bench.State)
      → r.dry_run ≡ true
      → (close_if_armed bench r s).1 ≡ (shield_is_armed bench s).1
  unfolding close_if_armed step_shield_close step_shield_purge
  close_if_armed-dry r s dry = ground arith

  -- On a journal that is neither empty nor done, resume with a dry runner says that it has cleaned
  -- up, and has only asked for the shield's status.
  pub resume-dry :
      (r : Runner) (s : bench.State) {last : String}
      → r.dry_run ≡ true
      → last_event r.journal ≡ some last
      → can_resume_from "RUNNER_DONE" r.journal ≡ false
      → ((resume bench r s).0.status ≡ resumed)
        × ((resume bench r s).0.reason ≡ some "RESUMED_AND_CLEANED")
        × ((resume bench r s).2 ≡ (shield_is_armed bench s).1)
  unfolding resume
  resume-dry r s dry found unfinished =
      rw (found, unfinished, resume) (refl, refl, close_if_armed-dry r s dry)
