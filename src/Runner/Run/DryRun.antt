-- ===== src/Runner/Run/DryRun.antt =====
-- What a dry run does not depend on.
use bootmux.Base.{
  ◌≡◌, refl, inl, inr, Bool, true, Option, List, [], ◌∷◌, ◌++◌, String, arith, Option-cases,
  Bool-cases,
}
use bootmux.Runner.Data.{Proc, Bench, Runner, Outcome, is_red}
use bootmux.Runner.Run.{abort, close_if_armed, run_steps, run, steps}
use bootmux.Runner.Shield.{
  Step, shield_is_armed, step_pre_fingerprint, step_post_fingerprint, step_fingerprint_compare,
  compare, step_shield_install, step_shield_arm, step_shield_close, step_shield_purge,
}
use bootmux.Runner.Steps.{
  step_serial_baseline, step_serial_detect, step_rom_mode_check, step_pre_flash_gate, gate,
  gate_hashes,
}
use bootmux.Runner.Write.{step_flash, step_flash_verify, step_safe_identity_verify}

module _ (bench : Bench) (install : bench.State → Proc × bench.State)
    (rom : String → bench.State → (Bool × String) × bench.State)
    (exec : List String → Option String → bench.State → Proc × bench.State)
    (unlink : bench.State → bench.State) where
  -- The same machine, but for what a flash would do.
  abbrev other : Bench
  other = record bench { install = install; check_rom = rom; exec = exec; unlink = unlink }

  abbrev Agrees : Step bench → Step bench → Type 0
  Agrees step step' =
      (r : Runner) (s : bench.State)
      → r.dry_run ≡ true
      → (step r s ≡ step' r s) × ((step r s).1.dry_run ≡ true)

  pre_fingerprint-Agrees : Agrees (step_pre_fingerprint bench) (step_pre_fingerprint other)
  unfolding step_pre_fingerprint
  pre_fingerprint-Agrees r s dry = (refl, ground arith)

  shield_install-Agrees : Agrees (step_shield_install bench) (step_shield_install other)
  unfolding step_shield_install
  shield_install-Agrees r s dry = ground arith

  shield_arm-Agrees : Agrees (step_shield_arm bench) (step_shield_arm other)
  unfolding step_shield_arm
  shield_arm-Agrees r s dry = (refl, ground arith)

  serial_baseline-Agrees : Agrees (step_serial_baseline bench) (step_serial_baseline other)
  unfolding step_serial_baseline
  serial_baseline-Agrees r s dry = (refl, ground arith)

  serial_detect-Agrees : Agrees (step_serial_detect bench) (step_serial_detect other)
  unfolding step_serial_detect
  serial_detect-Agrees r s dry = (refl, ground arith)

  rom_mode_check-Agrees : Agrees (step_rom_mode_check bench) (step_rom_mode_check other)
  unfolding step_rom_mode_check
  rom_mode_check-Agrees r s dry = ground arith

  pre_flash_gate-Agrees : Agrees (step_pre_flash_gate bench) (step_pre_flash_gate other)
  unfolding step_pre_flash_gate gate gate_hashes
  pre_flash_gate-Agrees r s dry = (refl, ground arith)

  flash-Agrees : Agrees (step_flash bench) (step_flash other)
  unfolding step_flash
  flash-Agrees r s dry = ground arith

  flash_verify-Agrees : Agrees (step_flash_verify bench) (step_flash_verify other)
  unfolding step_flash_verify
  flash_verify-Agrees r s dry = ground arith

  safe_identity_verify-Agrees :
      Agrees (step_safe_identity_verify bench) (step_safe_identity_verify other)
  unfolding step_safe_identity_verify
  safe_identity_verify-Agrees r s dry = (refl, ground arith)

  shield_close-Agrees : Agrees (step_shield_close bench) (step_shield_close other)
  unfolding step_shield_close
  shield_close-Agrees r s dry = (refl, ground arith)

  shield_purge-Agrees : Agrees (step_shield_purge bench) (step_shield_purge other)
  unfolding step_shield_purge
  shield_purge-Agrees r s dry = (refl, ground arith)

  post_fingerprint-Agrees : Agrees (step_post_fingerprint bench) (step_post_fingerprint other)
  unfolding step_post_fingerprint
  post_fingerprint-Agrees r s dry = (refl, ground arith)

  fingerprint_compare-Agrees :
      Agrees (step_fingerprint_compare bench) (step_fingerprint_compare other)
  unfolding step_fingerprint_compare compare
  fingerprint_compare-Agrees r s dry = (refl, ground arith)

  -- Two lists of steps that agree one by one.
  abbrev AllAgree : List (String × Step bench) → List (String × Step bench) → Type 0
  AllAgree [] [] = Unit
  AllAgree ((n, f) ∷ fs) ((m, g) ∷ gs) = (n ≡ m) × Agrees f g × AllAgree fs gs
  AllAgree _ _ = ⊥

  abort-same :
      (name : String) (result : Outcome) (results : List (String × Outcome)) (r : Runner)
      (s : bench.State)
      → abort bench name result results r s ≡ abort other name result results r s
  unfolding abort close_if_armed shield_is_armed step_shield_close step_shield_purge
  abort-same name result results r s = refl

  run_steps-same :
      (fs gs : List (String × Step bench)) (results : List (String × Outcome)) (r : Runner)
      (s : bench.State)
      → AllAgree fs gs
      → r.dry_run ≡ true
      → run_steps bench fs results r s ≡ run_steps other gs results r s
  unfolding run_steps
  run_steps-same [] [] results r s h dry = refl
  run_steps-same [] (g ∷ gs) results r s h dry = elim h [ ]
  run_steps-same (f ∷ fs) [] results r s h dry = elim h [ ]
  run_steps-same ((n, f) ∷ fs) ((m, g) ∷ gs) results r s (e, a, h) dry =
      let (same, kept) = a r s dry in
      let (result, r', s') = f r s in
      let rest = run_steps-same fs gs (results ++ ((n, result) ∷ [])) r' s' h kept in
      rw (← e, ← same, run_steps)
        (elim (Bool-cases (is_red result)) [
          | inl bad ↦ rw bad (abort-same n result (results ++ ((n, result) ∷ [])) r' s')
          | inr fine ↦ rw fine rest
        ])

  steps-same : AllAgree (steps bench) (steps other)
  steps-same = (
    refl,
    pre_fingerprint-Agrees,
    (
      refl,
      shield_install-Agrees,
      (
        refl,
        shield_arm-Agrees,
        (
          refl,
          serial_baseline-Agrees,
          (
            refl,
            serial_detect-Agrees,
            (
              refl,
              rom_mode_check-Agrees,
              (
                refl,
                pre_flash_gate-Agrees,
                (
                  refl,
                  flash-Agrees,
                  (
                    refl,
                    flash_verify-Agrees,
                    (
                      refl,
                      safe_identity_verify-Agrees,
                      (
                        refl,
                        shield_close-Agrees,
                        (
                          refl,
                          shield_purge-Agrees,
                          (refl, post_fingerprint-Agrees, (refl, fingerprint_compare-Agrees, tt)),
                        ),
                      ),
                    ),
                  ),
                ),
              ),
            ),
          ),
        ),
      ),
    ),
  )

  -- A dry run is the same, in its report, its journal and the machine that it leaves, whatever the
  -- installation of the shield, the look at the chip, the runs of esptool and the removal of its
  -- output file would do.
  pub run-dry : (r : Runner) (s : bench.State) → r.dry_run ≡ true → run bench r s ≡ run other r s
  unfolding run
  run-dry r s dry = elim (Option-cases (bench.manifest_of s)) [
    | inl gone ↦ rw (gone, run) refl
    | inr (m, there) ↦
        rw (there, run) (run_steps-same (steps bench) (steps other) [] _ s steps-same dry)
  ]
