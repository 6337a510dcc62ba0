-- ===== src/Runner/Tests.antt =====
-- Runs of the flash runner on a bench of its own, and the theorems at these runs.
use bootmux.Base.{
  ◌≡◌, ◌↔◌, ◌⊎◌, refl, Bool, true, false, not, ◌&&◌, Option, none, some, List, [], ◌∷◌, String, ℤ,
  pos, contains, filter, codes_contain, codes_start, lower, show_ℕ, if◌then◌else◌,
}
use bootmux.Runner.Data.{
  Artifact, Manifest, Proc, Bench, Runner, new_runner, null, log, last_event, can_resume_from,
  is_red,
}
use bootmux.Runner.Ports.{is_rejected_device, is_allowed, detect_new_port}
use bootmux.Runner.Ports.Detect.{detect_new_port_iff}
use bootmux.Runner.Run.{resumed, run, resume}
use bootmux.Runner.Run.DryRun.{run-dry}
use bootmux.Runner.Run.Gated.{run-gated}
use bootmux.Runner.Run.Resume.{resume-dry}
use bootmux.Runner.Run.Pipeline.{Completed, Stopped, pipeline, run-outcome}
use bootmux.Runner.Flash.{check_artifact, verify_flash_sha}
use bootmux.Runner.Shield.{
  shield_is_armed, compare, differences, fingerprint_output, step_pre_fingerprint,
  step_post_fingerprint, step_fingerprint_compare, step_shield_install, step_shield_arm,
  step_shield_close, step_shield_purge,
}
use bootmux.Runner.Steps.{
  step_serial_baseline, step_serial_detect, step_rom_mode_check, first_mismatch, gate, gate_hashes,
  step_pre_flash_gate,
}
use bootmux.Runner.Write.{step_flash, step_flash_verify, step_safe_identity_verify}
use bootmux.Runner.Steps.Gate.{Inspected, Intact, step_pre_flash_gate-passed_iff}

record Desk : Type 0 where
  armed : Bool
  plugged : Bool
  written : Bool

abbrev firmware_bin : Artifact
firmware_bin = record {
  name = "app";
  path = "build-p4-safe/app.bin";
  offset = "0x10";
  size = 4;
  sha256 = "abc";
}

abbrev manifest : Manifest
manifest = record {
  build_dir = "build-p4-safe";
  flash_mode = "dio";
  flash_freq = "80m";
  flash_size = "2MB";
  artifacts = firmware_bin ∷ [];
}

abbrev done : String → Proc
done out = record { returncode = pos 0; stdout = out; stderr = "" }

abbrev shield : List String → Desk → (ℤ × String) × Desk
shield args d =
    if contains "--status" args
    then ((pos 0, if d.armed then "STATUS=ARMED" else "STATUS=OFF"), d)
    else if contains "--arm" args
    then ((pos 0, "CLASSIFICATION=GREEN"), record d { armed = true })
    else if contains "--uninstall" args
    then ((pos 0, "PURGE=OK"), d)
    else ((pos 0, "{}"), record d { armed = d.armed && not (contains "--close-session" args) })

abbrev bench : Bench
bench = record {
  State = Desk;
  manifest_of = λ d. some manifest;
  firmware_dir = λ d. "/firmware";
  run_shield = λ args sudo d. shield args d;
  install = λ d. (done "", d);
  list_serial_ports =
      λ d. (if d.plugged then "/dev/cu.usbmodem1" ∷ [] else [], record d { plugged = true });
  check_rom = λ port d. ((true, "ROM_DOWNLOAD_MODE_CONFIRMED"), d);
  inspect = λ d. (done "report", d);
  json_inspection = λ out. some (record {
    overall = some "GREEN";
    safe_off_marker = null;
    usb_identity_match = null;
    sdkconfig_marker = null;
  });
  json_fingerprint = λ out. some (("dns", "1.1.1.1") ∷ []);
  sha_of = λ path d. some "abc";
  find_esptool = λ d. (some (record { argv = "esptool.py" ∷ []; env = none }), d);
  exec = λ cmd env d. (done "", record d { written = true });
  readback = λ d. some "abc";
  unlink = λ d. d;
}

abbrev desk : Desk
desk = record { armed = false; plugged = false; written = false }

-- A whole run writes the flash and leaves the shield closed.
run_test :
    (run bench (new_runner false) desk).2 ≡ record { armed = false; plugged = true; written = true }
unfolding run is_rejected_device detect_new_port step_pre_flash_gate step_pre_fingerprint
    step_shield_install step_shield_arm show_ℕ step_serial_baseline step_serial_detect
    step_rom_mode_check step_flash step_flash_verify verify_flash_sha step_safe_identity_verify
    step_shield_close step_shield_purge step_post_fingerprint is_red codes_contain codes_start lower
    check_artifact compare fingerprint_output step_fingerprint_compare first_mismatch gate
    gate_hashes differences
run_test = refl

detect_new_port_iff_example :
    ((detect_new_port [] ("/dev/cu.usbmodem1" ∷ "/dev/cu.iPhone" ∷ [])).0
      ≡ some "/dev/cu.usbmodem1")
    ↔ (filter
          (λ q. not (contains q []) && is_allowed (is_rejected_device q))
          ("/dev/cu.usbmodem1" ∷ "/dev/cu.iPhone" ∷ [])
        ≡ "/dev/cu.usbmodem1" ∷ [])
detect_new_port_iff_example =
    detect_new_port_iff [] ("/dev/cu.usbmodem1" ∷ "/dev/cu.iPhone" ∷ []) "/dev/cu.usbmodem1"

abbrev loaded : Runner
loaded = record (new_runner false) { manifest = some manifest; firmware = some "/firmware" }

step_pre_flash_gate-passed_iff_example :
    (is_red (step_pre_flash_gate bench loaded desk).0 ≡ false)
    ↔ (Inspected bench desk × Intact bench "/firmware" (firmware_bin ∷ []) desk)
step_pre_flash_gate-passed_iff_example = step_pre_flash_gate-passed_iff bench loaded desk refl refl

run-outcome_example :
    Completed pipeline [] (run bench (new_runner false) desk).0
    ⊎ Stopped pipeline [] (run bench (new_runner false) desk).0
run-outcome_example = run-outcome bench (new_runner false) desk refl

abbrev wild : List String → Option String → Desk → Proc × Desk
wild cmd env d = (done "", record d { written = true; armed = true })

run-dry_example :
    run bench (new_runner true) desk
    ≡ run
        (record bench {
          install = λ d. (done "", record d { armed = true });
          check_rom = λ port d. ((false, ""), d);
          exec = wild;
          unlink = λ d. record d { written = true };
        })
        (new_runner true)
        desk
run-dry_example =
    run-dry bench (λ d. (done "", record d { armed = true })) (λ port d. ((false, ""), d)) wild
      (λ d. record d { written = true }) (new_runner true) desk refl

-- An inspector whose report is no JSON.
abbrev blind : Bench
blind = record bench { json_inspection = λ out. none }

run-gated_example :
    run blind (new_runner false) desk ≡ run (record blind { exec = wild }) (new_runner false) desk
run-gated_example = run-gated blind wild (λ d (i, e, g). cc) (new_runner false) desk

-- A session that was cut off while the shield was armed.
abbrev cut_off : Runner
cut_off = log "SHIELD_ARM" [] "OK" (new_runner true)

resume-dry_example :
    ((resume bench cut_off (record desk { armed = true })).0.status ≡ resumed)
    × ((resume bench cut_off (record desk { armed = true })).0.reason ≡ some "RESUMED_AND_CLEANED")
    × ((resume bench cut_off (record desk { armed = true })).2
        ≡ (shield_is_armed bench (record desk { armed = true })).1)
unfolding last_event can_resume_from
resume-dry_example = resume-dry bench cut_off (record desk { armed = true }) refl refl refl
