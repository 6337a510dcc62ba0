-- ===== src/Runner/Run/Pipeline.antt =====
-- What the results of a run say of its steps.
use bootmux.Base.{
  ◌≡◌, refl, ap, ◌∙◌, sym, ◌⊎◌, inl, inr, true, false, some, List, [], ◌∷◌, ◌++◌, map, String, All,
  Bool-cases,
}
use mathlib.Core.List.{append_assoc, append-nil}
use bootmux.Runner.Data.{Manifest, Bench, Runner, Outcome, is_red}
use bootmux.Runner.Run.{RunReport, all_green, failed, abort, run_steps, run, steps}
use bootmux.Runner.Shield.{Step}

abbrev names {ℓ} : {A : Type ℓ} → List (String × A) → List String
names entries = map (λ e. e.0) entries

abbrev pub Passed : List (String × Outcome) → Type 0
Passed results = All (λ e. is_red e.1 ≡ false) results

-- All the steps named have run, none red.
abbrev pub Completed : List String → List (String × Outcome) → RunReport → Type 0
Completed expected before report =
    (more : List (String × Outcome)) × (report.status ≡ all_green)
    × (report.results ≡ before ++ more)
    × (map (λ e. e.0) more ≡ expected)
    × Passed more

-- The names of the fourteen steps, in the order in which a flash must take them.
abbrev pub pipeline : List String
pipeline =
    "PRE_FINGERPRINT" ∷ "SHIELD_INSTALL" ∷ "SHIELD_ARM" ∷ "SERIAL_BASELINE" ∷ "SERIAL_DETECT"
    ∷ "ROM_MODE_CHECK" ∷ "PRE_FLASH_GATE" ∷ "FLASH" ∷ "FLASH_VERIFY" ∷ "SAFE_IDENTITY_VERIFY"
    ∷ "SHIELD_CLOSE" ∷ "SHIELD_PURGE" ∷ "POST_FINGERPRINT" ∷ "FINGERPRINT_COMPARE" ∷ []

-- The first red step has ended the run.
abbrev pub Stopped : List String → List (String × Outcome) → RunReport → Type 0
Stopped expected before report =
    (more : List (String × Outcome)) × (name : String) × (result : Outcome) × (later : List String)
    × (report.status ≡ failed)
    × (report.failed_step ≡ some name)
    × (report.results ≡ before ++ (more ++ ((name, result) ∷ [])))
    × (expected ≡ map (λ e. e.0) more ++ (name ∷ later))
    × Passed more
    × (is_red result ≡ true)

module _ (bench : Bench) where
  run_steps-outcome :
      (todo : List (String × Step bench)) (before : List (String × Outcome)) (r : Runner)
      (s : bench.State)
      → let report = (run_steps bench todo before r s).0 in
        Completed (map (λ e. e.0) todo) before report ⊎ Stopped (map (λ e. e.0) todo) before report
  unfolding run_steps abort
  run_steps-outcome [] before r s = inl ([], refl, sym (append-nil before), refl, tt)
  run_steps-outcome ((name, step) ∷ todo) before r s =
      let (result, r', s') = step r s in
      elim (Bool-cases (is_red result)) [
        | inl bad ↦
            rw (bad, run_steps)
              (inr ([], name, result, map (λ e. e.0) todo, refl, refl, refl, refl, tt, bad))
        | inr fine ↦
            rw (fine, run_steps)
              (elim (run_steps-outcome todo (before ++ ((name, result) ∷ [])) r' s') [
                | inl (more, e, f, g, h) ↦ inl (
                  (name, result) ∷ more,
                  e,
                  f ∙ append_assoc before _ more,
                  ap (λ ns. name ∷ ns) g,
                  (fine, h),
                )
                | inr (more, n, o, later, a, b, c, d, h, i) ↦ inr (
                  (name, result) ∷ more,
                  n,
                  o,
                  later,
                  a,
                  b,
                  c ∙ append_assoc before _ _,
                  ap (λ ns. name ∷ ns) d,
                  (fine, h),
                  i,
                )
              ])
      ]

  -- With a manifest there, a run either has all fourteen steps in their order in its results, by name
  -- PRE_FINGERPRINT, SHIELD_INSTALL, SHIELD_ARM, SERIAL_BASELINE, SERIAL_DETECT, ROM_MODE_CHECK,
  -- PRE_FLASH_GATE, FLASH, FLASH_VERIFY, SAFE_IDENTITY_VERIFY, SHIELD_CLOSE, SHIELD_PURGE,
  -- POST_FINGERPRINT and FINGERPRINT_COMPARE, none of them red, and says GREEN; or its results are those
  -- of the first steps, none of them red but the last, which is the failed step, and it says RED.
  pub run-outcome :
      (r : Runner) (s : bench.State) {m : Manifest}
      → bench.manifest_of s ≡ some m
      → let report = (run bench r s).0 in Completed pipeline [] report ⊎ Stopped pipeline [] report
  unfolding run
  run-outcome r s h = rw (h, run) (run_steps-outcome (steps bench) [] _ s)
