-- ===== src/Runner/Run/Gated.antt =====
-- What a run does where the gate is shut.
use bootmux.Base.{
  ◌≡◌, refl, inl, inr, true, Option, List, [], ◌∷◌, ◌++◌, String, Option-cases, Bool-cases,
}
use bootmux.Runner.Data.{Proc, Bench, Runner, Outcome, is_red}
use bootmux.Runner.Run.{abort, close_if_armed, run_steps, run, steps}
use bootmux.Runner.Shield.{
  Step, shield_is_armed, step_pre_fingerprint, step_shield_install, step_shield_arm,
  step_shield_close, step_shield_purge,
}
use bootmux.Runner.Steps.{
  step_serial_baseline, step_serial_detect, step_rom_mode_check, step_pre_flash_gate, gate,
  gate_hashes,
}
use bootmux.Runner.Steps.Gate.{Inspected, step_pre_flash_gate-passed_iff}

module _ (bench : Bench) (exec : List String → Option String → bench.State → Proc × bench.State)
    (shut : (s : bench.State) → Inspected bench s → ⊥) where
  abbrev other : Bench
  other = record bench { exec = exec }

  gate-red : (r : Runner) (s : bench.State) → is_red (step_pre_flash_gate bench r s).0 ≡ true
  unfolding step_pre_flash_gate is_red
  gate-red r s = elim (Option-cases r.manifest) [
    | inl gone ↦ rw (gone, step_pre_flash_gate) refl
    | inr (m, there) ↦ elim (Option-cases r.firmware) [
      | inl gone ↦ rw (there, gone, step_pre_flash_gate) refl
      | inr (firmware, here) ↦ elim (Bool-cases (is_red (step_pre_flash_gate bench r s).0)) [
        | inl bad ↦ bad
        | inr fine ↦
            absurd (shut s ((step_pre_flash_gate-passed_iff bench r s there here).0 fine).0)
      ]
    ]
  ]

  abort-same :
      (name : String) (result : Outcome) (results : List (String × Outcome)) (r : Runner)
      (s : bench.State)
      → abort bench name result results r s ≡ abort other name result results r s
  unfolding abort close_if_armed shield_is_armed step_shield_close step_shield_purge
  abort-same name result results r s = refl

  -- A step that both machines share, before runs that agree.
  then-same :
      (name : String) (f g : Step bench) (fs gs : List (String × Step bench))
      → ((r : Runner) (s : bench.State) → f r s ≡ g r s)
      → ((results : List (String × Outcome)) (r : Runner) (s : bench.State)
          → run_steps bench fs results r s ≡ run_steps other gs results r s)
      → (results : List (String × Outcome)) (r : Runner) (s : bench.State)
      → run_steps bench ((name, f) ∷ fs) results r s ≡ run_steps other ((name, g) ∷ gs) results r s
  unfolding run_steps
  then-same name f g fs gs same rest results r s =
      let (result, r', s') = f r s in
      let results' = results ++ ((name, result) ∷ []) in
      rw (← same r s, run_steps)
        (elim (Bool-cases (is_red result)) [
          | inl bad ↦ rw bad (abort-same name result results' r' s')
          | inr fine ↦ rw fine (rest results' r' s')
        ])

  gate-same :
      (fs gs : List (String × Step bench)) (results : List (String × Outcome)) (r : Runner)
      (s : bench.State)
      → run_steps bench (("PRE_FLASH_GATE", step_pre_flash_gate bench) ∷ fs) results r s
        ≡ run_steps other (("PRE_FLASH_GATE", step_pre_flash_gate other) ∷ gs) results r s
  unfolding run_steps
  gate-same fs gs results r s =
      let (result, r', s') = step_pre_flash_gate bench r s in
      let same : step_pre_flash_gate bench r s ≡ step_pre_flash_gate other r s =
        unfold step_pre_flash_gate gate gate_hashes in refl in
      rw (← same, run_steps, gate-red r s)
        (abort-same _ result (results ++ (("PRE_FLASH_GATE", result) ∷ [])) r' s')

  steps-same :
      (results : List (String × Outcome)) (r : Runner) (s : bench.State)
      → run_steps bench (steps bench) results r s ≡ run_steps other (steps other) results r s
  unfolding step_pre_fingerprint step_shield_install step_shield_arm step_serial_baseline
      step_serial_detect step_rom_mode_check
  steps-same =
      then-same _ _ _ _ _ (λ r s. refl)
        (then-same _ _ _ _ _ (λ r s. refl)
          (then-same _ _ _ _ _ (λ r s. refl)
            (then-same _ _ _ _ _ (λ r s. refl)
              (then-same _ _ _ _ _ (λ r s. refl)
                (then-same _ _ _ _ _ (λ r s. refl) (gate-same _ _))))))

  -- Where the inspector reports GREEN in no state, a run, dry or not, is the same, in its report, its
  -- journal and the machine that it leaves, whatever the commands of esptool would do.
  pub run-gated : (r : Runner) (s : bench.State) → run bench r s ≡ run other r s
  unfolding run
  run-gated r s = elim (Option-cases (bench.manifest_of s)) [
    | inl gone ↦ rw (gone, run) refl
    | inr (m, there) ↦ rw (there, run) (steps-same [] _ s)
  ]
