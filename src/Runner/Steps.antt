-- ===== src/Runner/Steps.antt =====
-- scripts/macos/bootmux-safe-flash-runner.py: the steps from the serial port to the inspection
-- behind the flash.
pub mod Gate
use bootmux.Base.{
  Bool, true, false, not, ◌&&◌, Option, none, some, List, [], ◌∷◌, ◌++◌, map, String, ◌<>◌, ◌==◌,
  first_chars, is_zero, length, truthy, is_text, if◌then◌else◌,
}
use bootmux.Runner.Data.{
  Datum, flag, count, code, text, texts, null, Artifact, Manifest, Inspection, Proc, Esptool, Bench,
  Runner, log, Outcome, green, green_dry_run, yellow, red, red_because, verdict,
}
use bootmux.Runner.Flash.{
  build_flash_command, FlashStatus, esptool_missing, checked, flash_status, verify_flash_sha,
}
use bootmux.Runner.Ports.{detect_new_port, show_detection}
use bootmux.Runner.Shield.{Step, ok_or}

-- The port, the manifest and the build directory, where all are there.
abbrev pub setup : Runner → Option (String × Manifest × String)
setup r = elim (truthy r.serial_port) [
  | none ↦ none
  | some port ↦ elim r.manifest [
    | none ↦ none
    | some manifest ↦ elim r.firmware [
      | none ↦ none
      | some firmware ↦ some (port, manifest, firmware)
    ]
  ]
]

abbrev datum_text : Option String → Datum
datum_text none = null
datum_text (some s) = text s

-- `result.get("overall", "RED")`
abbrev pub overall_of : Inspection → String
overall_of i = elim i.overall [ none ↦ "RED" | some v ↦ v ]

-- What stops the check of the artifacts' hashes.
pub data Mismatch : Type 0 where
  missing : Artifact → Mismatch
  differs : Artifact → String → Mismatch

module _ (bench : Bench) where
  unfoldable pub step_serial_baseline : Step bench
  step_serial_baseline r s =
      let (ports, s') = bench.list_serial_ports s in
      (
        green,
        log "SERIAL_BASELINE" (("ports", texts ports) ∷ []) "OK"
            (record r { serial_baseline = ports }),
        s',
      )

  unfoldable pub step_serial_detect : Step bench
  step_serial_detect r s =
      let (ports, s') = bench.list_serial_ports s in
      let (port, why) = detect_new_port r.serial_baseline ports in
      let reason = show_detection why in
      elim port [
        | none ↦ (
          red_because reason,
          log "SERIAL_DETECT" (("reason", text reason) ∷ ("after", texts ports) ∷ []) "RED" r,
          s',
        )
        | some p ↦ (
          green,
          log "SERIAL_DETECT" (("port", text p) ∷ ("reason", text reason) ∷ []) "OK"
              (record r { serial_port = some p }),
          s',
        )
      ]

  unfoldable pub step_rom_mode_check : Step bench
  step_rom_mode_check r s = elim (truthy r.serial_port) [
    | none ↦ (red_because "NO_PORT", r, s)
    | some port ↦
        let ((is_rom, detail), s') = bench.check_rom port s in
        if r.dry_run
        then (
          green_dry_run,
          log "ROM_MODE_CHECK" (("dry_run", flag true) ∷ ("port", text port) ∷ []) "OK" r,
          s,
        )
        else (
          if is_rom then green else red_because detail,
          log "ROM_MODE_CHECK"
              (("port", text port) ∷ ("is_rom", flag is_rom) ∷ ("detail", text detail) ∷ [])
              (ok_or is_rom "RED") r,
          s',
        )
  ]

  -- The first artifact whose file is missing or has another hash.
  unfoldable pub first_mismatch : String → List Artifact → bench.State → Option Mismatch
  first_mismatch firmware [] s = none
  first_mismatch firmware (a ∷ artifacts) s =
      let rest = first_mismatch firmware artifacts s in
      elim (bench.sha_of (firmware <> "/" <> a.path) s) [
        | none ↦ some (missing a)
        | some actual ↦ if actual == a.sha256 then rest else some (differs a actual)
      ]

  -- The second half of the gate.
  unfoldable pub gate_hashes : Manifest → String → Step bench
  unfolding first_mismatch
  gate_hashes manifest firmware r s = elim (first_mismatch firmware manifest.artifacts s) [
    | some (missing a) ↦ (
      red_because ("ARTIFACT_MISSING:" <> a.name),
      log "PRE_FLASH_GATE"
          (("error", text ("artifact missing: " <> firmware <> "/" <> a.path)) ∷ []) "RED" r,
      s,
    )
    | some (differs a actual) ↦ (
      red_because ("HASH_MISMATCH:" <> a.name),
      log "PRE_FLASH_GATE"
          (("artifact", text a.name) ∷ ("expected", text a.sha256) ∷ ("actual", text actual) ∷ [])
          "RED" r,
      s,
    )
    | none ↦ (
      green,
      log "PRE_FLASH_GATE"
          (("overall", text "GREEN")
            ∷ ("artifacts_verified", count (length manifest.artifacts))
            ∷ [])
          "OK" r,
      s,
    )
  ]

  unfoldable pub gate : Manifest → String → Step bench
  unfolding gate_hashes
  gate manifest firmware r s =
      let (proc, s') = bench.inspect s in
      elim (bench.json_inspection proc.stdout) [
        | none ↦ (
          red_because "INSPECTOR_PARSE_FAILED",
          log "PRE_FLASH_GATE"
              (("error", text "inspector json parse failed")
                ∷ ("stderr", text (first_chars 300 proc.stderr))
                ∷ [])
              "RED" r,
          s',
        )
        | some i ↦ if overall_of i == "GREEN" then gate_hashes manifest firmware r s' else (
          red_because ("INSPECTION_NOT_GREEN:" <> overall_of i),
          log "PRE_FLASH_GATE"
              (("overall", text (overall_of i))
                ∷ ("safe_off", i.safe_off_marker)
                ∷ ("usb_identity", i.usb_identity_match)
                ∷ ("sdkconfig", i.sdkconfig_marker)
                ∷ [])
              "RED" r,
          s',
        )
      ]

  unfoldable pub step_pre_flash_gate : Step bench
  unfolding gate
  step_pre_flash_gate r s = elim r.manifest [
    | none ↦ (red_because "PRECONDITIONS", r, s)
    | some manifest ↦ elim r.firmware [
      | none ↦ (red_because "PRECONDITIONS", r, s)
      | some firmware ↦ gate manifest firmware r s
    ]
  ]
