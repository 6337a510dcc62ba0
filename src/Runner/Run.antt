-- ===== src/Runner/Run.antt =====
-- scripts/macos/bootmux-safe-flash-runner.py: `run`, `_run_preflight` and `resume`. A signal, which
-- ends the process, and the printing are left out.
pub mod Pipeline
pub mod DryRun
pub mod Resume
pub mod Gated
use bootmux.Base.{
  Bool, true, false, not, ◌&&◌, Option, none, some, List, [], ◌∷◌, ◌++◌, map, String, ◌<>◌, ◌==◌,
  any, codes, codes_start, if◌then◌else◌,
}
use bootmux.Runner.Data.{
  Datum, flag, count, text, texts, FlashJournal, new_journal, append, last_event, can_resume_from,
  JournalEntry, Artifact, Manifest, Bench, Runner, new_runner, log, ttl_seconds, Outcome, green,
  green_dry_run, yellow, red, red_because, verdict, is_red,
}
use bootmux.Runner.Shield.{
  Step, shield_is_armed, step_pre_fingerprint, step_post_fingerprint, step_fingerprint_compare,
  step_shield_install, step_shield_arm, step_shield_close, step_shield_purge,
}
use bootmux.Runner.Steps.{
  Mismatch, missing, differs, first_mismatch, step_serial_baseline, step_serial_detect,
  step_rom_mode_check, step_pre_flash_gate,
}
use bootmux.Runner.Write.{step_flash, step_flash_verify, step_safe_identity_verify}

unfoldable pub show_outcome : Outcome → String
show_outcome green = "GREEN"
show_outcome green_dry_run = "GREEN_DRY_RUN"
show_outcome yellow = "YELLOW"
show_outcome red = "RED"
show_outcome (red_because reason) = "RED:" <> reason
show_outcome (verdict overall) = overall

pub data Status : Type 0 where
  all_green resumed failed : Status

-- The dict that `run` returns.
pub record RunReport : Type 0 where
  pub status : Status
  pub reason : Option String
  pub failed_step : Option String
  pub results : List (String × Outcome)

abbrev refused : String → RunReport
refused reason = record { status = failed; reason = some reason; failed_step = none; results = [] }

abbrev results_value : List (String × Outcome) → List (String × Datum)
results_value results = ("results", texts (map (λ r. r.0 <> ": " <> show_outcome r.1) results)) ∷ []

-- `result.startswith("GREEN")`
abbrev is_green : Outcome → Bool
is_green green = true
is_green green_dry_run = true
is_green yellow = false
is_green red = false
is_green (red_because reason) = false
is_green (verdict overall) = codes_start (codes overall) (codes "GREEN")

module _ (bench : Bench) where
  -- `load_manifest`
  abbrev pub load_manifest : Runner → bench.State → Option Runner
  load_manifest r s = elim (bench.manifest_of s) [
    | none ↦ none
    | some manifest ↦
        some (record r { manifest = some manifest; firmware = some (bench.firmware_dir s) })
  ]

  -- The steps in their order.
  abbrev pub steps : List (String × Step bench)
  steps =
      ("PRE_FINGERPRINT", step_pre_fingerprint bench)
      ∷ ("SHIELD_INSTALL", step_shield_install bench)
      ∷ ("SHIELD_ARM", step_shield_arm bench)
      ∷ ("SERIAL_BASELINE", step_serial_baseline bench)
      ∷ ("SERIAL_DETECT", step_serial_detect bench)
      ∷ ("ROM_MODE_CHECK", step_rom_mode_check bench)
      ∷ ("PRE_FLASH_GATE", step_pre_flash_gate bench)
      ∷ ("FLASH", step_flash bench)
      ∷ ("FLASH_VERIFY", step_flash_verify bench)
      ∷ ("SAFE_IDENTITY_VERIFY", step_safe_identity_verify bench)
      ∷ ("SHIELD_CLOSE", step_shield_close bench)
      ∷ ("SHIELD_PURGE", step_shield_purge bench)
      ∷ ("POST_FINGERPRINT", step_post_fingerprint bench)
      ∷ ("FINGERPRINT_COMPARE", step_fingerprint_compare bench)
      ∷ []

  -- `if shield_is_armed(): ...`, which `run` and `resume` share.
  unfoldable pub close_if_armed : Runner → bench.State → Runner × bench.State
  close_if_armed r s =
      let (armed, s1) = shield_is_armed bench s in
      let (_, r2, s2) = step_shield_close bench r s1 in
      let (_, r3, s3) = step_shield_purge bench r2 s2 in if armed then (r3, s3) else (r, s1)

  -- The branch of a red result.
  abort :
      String
      → Outcome
      → List (String × Outcome)
      → Runner
      → bench.State
      → RunReport × Runner × bench.State
  unfolding close_if_armed show_outcome
  abort name result results r s =
      let r1 =
        log "RUNNER_ABORT" (("step", text name) ∷ ("result", text (show_outcome result)) ∷ []) "RED"
          r in
      let (r2, s2) = close_if_armed r1 s in
      (
        record { status = failed; reason = none; failed_step = some name; results = results },
        r2,
        s2,
      )

  -- The loop over the steps, with the results so far.
  run_steps :
      List (String × Step bench)
      → List (String × Outcome)
      → Runner
      → bench.State
      → RunReport × Runner × bench.State
  unfolding abort is_red
  run_steps [] results r s = (
    record { status = all_green; reason = none; failed_step = none; results = results },
    log "RUNNER_DONE" (results_value results) "OK" r,
    s,
  )
  run_steps ((name, step) ∷ more) results r s =
      let (result, r', s') = step r s in
      let results' = results ++ ((name, result) ∷ []) in
      let rest = run_steps more results' r' s' in
      if is_red result then abort name result results' r' s' else rest

  abbrev started : Runner → Runner
  started r =
      log "RUNNER_START" (("dry_run", flag r.dry_run) ∷ ("ttl", count ttl_seconds) ∷ []) "OK" r

  -- `run`, past the choice of the preflight; the entry leaves out the session and the process.
  unfoldable pub run : Runner → bench.State → RunReport × Runner × bench.State
  unfolding run_steps
  run r s = elim (load_manifest (started r) s) [
    | none ↦ (refused "MANIFEST_MISSING", started r, s)
    | some r' ↦ run_steps steps [] r' s
  ]

  -- The preflight's own check of the hashes.
  preflight_hashes : Runner → bench.State → Outcome
  unfolding first_mismatch
  preflight_hashes r s = elim r.manifest [
    | none ↦ red_because "PRECONDITIONS"
    | some manifest ↦ elim r.firmware [
      | none ↦ red_because "PRECONDITIONS"
      | some firmware ↦ elim (first_mismatch bench firmware manifest.artifacts s) [
        | none ↦ green
        | some (missing a) ↦ red_because ("MISSING:" <> a.name)
        | some (differs a actual) ↦ red_because ("HASH_MISMATCH:" <> a.name)
      ]
    ]
  ]

  abbrev preflight_report : List (String × Outcome) → Bool → RunReport
  preflight_report results ok = record {
    status = if ok then all_green else failed;
    reason = none;
    failed_step = none;
    results = results;
  }

  -- The part of `_run_preflight` behind the manifest, which is there.
  preflight_checks : Runner → bench.State → RunReport × Runner × bench.State
  unfolding preflight_hashes
  preflight_checks r s =
      let (found, s1) = bench.find_esptool s in
      elim found [
        | none ↦ (
          record {
            status = failed;
            reason = none;
            failed_step = some "BUNDLE_ESPTOOL";
            results = ("BUNDLE_ESPTOOL", red) ∷ [];
          },
          r,
          s1,
        )
        | some tool ↦
            let hashes = preflight_hashes r s1 in
            let (gate_result, r2, s2) = step_pre_flash_gate bench r s1 in
            (
              preflight_report
                  (("BUNDLE_ESPTOOL", green)
                    ∷ ("HASH_VERIFY", hashes)
                    ∷ ("PRE_FLASH_GATE", gate_result)
                    ∷ [])
                  (is_green hashes && is_green gate_result),
              r2,
              s2,
            )
      ]

  -- `_run_preflight`, with a journal of its own.
  unfoldable pub run_preflight : Runner → bench.State → RunReport × Runner × bench.State
  unfolding preflight_checks
  run_preflight r s =
      let r1 = log "PREFLIGHT_START" [] "OK" (record r { journal = new_journal }) in
      elim (load_manifest r1 s) [
        | none ↦ (refused "MANIFEST_MISSING", r1, s)
        | some r2 ↦ preflight_checks r2 s
      ]

  -- `resume`, with the journal of the session in the runner.
  unfoldable pub resume : Runner → bench.State → RunReport × Runner × bench.State
  unfolding close_if_armed can_resume_from last_event
  resume r s = elim (last_event r.journal) [
    | none ↦ (refused "NO_JOURNAL", r, s)
    | some last ↦
        let (r', s') = close_if_armed r s in
        if can_resume_from "RUNNER_DONE" r.journal
        then (
          record {
            status = all_green;
            reason = some "ALREADY_DONE";
            failed_step = none;
            results = [];
          },
          r,
          s,
        )
        else (
          record {
            status = resumed;
            reason = some "RESUMED_AND_CLEANED";
            failed_step = none;
            results = [];
          },
          r',
          s',
        )
  ]
