-- ===== src/Runner/Write.antt =====
-- scripts/macos/bootmux-safe-flash-runner.py: the steps that write and read the flash, and the
-- inspection that follows.
use bootmux.Base.{
  ℕ, zero, suc, true, none, some, List, [], ◌∷◌, String, ◌<>◌, ◌==◌, first_chars, last_chars,
  is_zero, join, map, if◌then◌else◌,
}
use bootmux.Runner.Data.{
  Datum, flag, code, text, texts, Manifest, Esptool, Bench, log, green, green_dry_run, red,
  red_because, verdict,
}
use bootmux.Runner.Flash.{
  build_flash_command, FlashStatus, esptool_missing, checked, flash_status, is_green,
  verify_flash_sha,
}
use bootmux.Runner.Shield.{Step, ok_or}
use bootmux.Runner.Steps.{setup, overall_of}

-- The journal's view of a verification: the status, and the artifacts with theirs.
abbrev status_values : FlashStatus → List (String × Datum)
status_values esptool_missing = ("status", text "YELLOW") ∷ ("reason", text "ESPTOOL_MISSING") ∷ []
status_values (checked results) =
    ("status", text (flash_status (checked results)))
    ∷ ("artifacts", texts (map (λ r. r.0 <> (if is_green r.1 then ": GREEN" else ": RED")) results))
    ∷ []

first_words : ℕ → List String → List String
first_words zero words = []
first_words (suc n) [] = []
first_words (suc n) (w ∷ words) = w ∷ first_words n words

module _ (bench : Bench) where
  -- The flash itself.
  write : Esptool → String → Manifest → String → Step bench
  write tool port manifest firmware r s =
      let cmd = build_flash_command tool port manifest firmware in
      let r1 =
        log "FLASH_START" (("cmd", text (join " " (first_words 10 cmd) <> "...")) ∷ []) "OK" r in
      let (proc, s') = bench.exec cmd tool.env s in
      let ok = is_zero proc.returncode in
      (
        if ok then green else red_because "FLASH_FAILED",
        log "FLASH"
            (("ok", flag ok)
              ∷ ("returncode", code proc.returncode)
              ∷ ("stderr_tail", text (last_chars 500 proc.stderr))
              ∷ [])
            (ok_or ok "RED") r1,
        s',
      )

  unfoldable pub step_flash : Step bench
  unfolding write first_words last_chars join
  step_flash r s = elim (setup r) [
    | none ↦ (red_because "PRECONDITIONS", r, s)
    | some (port, manifest, firmware) ↦
        let (found, s') = bench.find_esptool s in
        if r.dry_run
        then (
          green_dry_run,
          log "FLASH" (("dry_run", flag true) ∷ ("port", text port) ∷ []) "OK" r,
          s,
        )
        else elim found [
          | none ↦ (
            red_because "ESPTOOL_MISSING",
            log "FLASH" (("error", text "esptool not found") ∷ []) "RED" r,
            s',
          )
          | some tool ↦ write tool port manifest firmware r s'
        ]
  ]

  unfoldable pub step_flash_verify : Step bench
  step_flash_verify r s =
      if r.dry_run
      then (green_dry_run, log "FLASH_VERIFY" (("dry_run", flag true) ∷ []) "OK" r, s)
      else elim (setup r) [
        | none ↦ (red_because "PRECONDITIONS", r, s)
        | some (port, manifest, firmware) ↦
            let (result, s') = verify_flash_sha bench port manifest s in
            (
              verdict (flash_status result),
              log "FLASH_VERIFY" (status_values result)
                  (ok_or (flash_status result == "GREEN") "RED") r,
              s',
            )
      ]

  unfoldable pub step_safe_identity_verify : Step bench
  step_safe_identity_verify r s =
      let (proc, s') = bench.inspect s in
      if is_zero proc.returncode
      then elim (bench.json_inspection proc.stdout) [
        | none ↦ (red, log "SAFE_IDENTITY_VERIFY" (("error", text "json parse") ∷ []) "RED" r, s')
        | some i ↦ (
          verdict (overall_of i),
          log "SAFE_IDENTITY_VERIFY" (("overall", text (overall_of i)) ∷ [])
              (ok_or (overall_of i == "GREEN") "RED") r,
          s',
        )
      ]
      else (
        red,
        log "SAFE_IDENTITY_VERIFY" (("error", text (first_chars 500 proc.stderr)) ∷ []) "RED" r,
        s',
      )
