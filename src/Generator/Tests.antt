-- ===== src/Generator/Tests.antt =====
-- A run of the generator on a small build.
use bootmux.Base.{
  ◌≡◌, refl, ap, ℕ, true, Option, none, some, List, [], ◌∷◌, map, String, ◌<>◌, ◌==◌, pos, All,
  if◌then◌else◌, codes_start,
}
use bootmux.Base.Lines.{strip_prefix}
use bootmux.Base.Lines.Printed.{strip_prefix-append}
use bootmux.Generator.{Flasher, Tree, Generated, artifact_name, generate_from, generate_manifest}
use bootmux.Generator.Accepted.{Inspected, hash_at, generate_manifest-accepted}
use bootmux.Generator.Order.{Ascending, generate_manifest-Ascending}
use bootmux.Runner.Data.{Bench, Proc}
use bootmux.Runner.Steps.{first_mismatch}

abbrev flasher : Flasher
flasher = record {
  flash_settings = ("flash_size", "4MB") ∷ [];
  flash_files =
      ("0x10000", "app.bin")
      ∷ ("0x0", "bootloader/bootloader.bin")
      ∷ ("0x9000", "ota_data_initial.bin")
      ∷ ("0x8000", "missing.bin")
      ∷ [];
}

abbrev bytes_at : String → Option (List ℕ)
bytes_at path =
    if path == "build/app.bin"
    then some (1 ∷ 2 ∷ 3 ∷ [])
    else if path == "build/bootloader/bootloader.bin"
    then some (1 ∷ [])
    else if path == "ota_data_initial.bin"
    then some []
    else none

abbrev tree : Tree
tree = record {
  build_dir = "build";
  flasher_args = some flasher;
  read_bytes = bytes_at;
  sha256_file = λ bytes. "abc";
  sdkconfig = some "CONFIG_X=y\n# CONFIG_BOOTMUX_USB_NETWORK_EXPERIMENTAL is not set\n";
  sdkconfig_defaults = none;
}

abbrev generated : Generated
generated = generate_from tree flasher

generates :
    (map (λ a. a.name) generated.manifest.artifacts
      ≡ "bootloader" ∷ "ota_data_initial" ∷ "application" ∷ [])
    × (map (λ a. a.path) generated.manifest.artifacts
        ≡ "build/bootloader/bootloader.bin" ∷ "ota_data_initial.bin" ∷ "build/app.bin" ∷ [])
    × (map (λ a. a.offset) generated.manifest.artifacts ≡ "0x0" ∷ "0x9000" ∷ "0x10000" ∷ [])
    × (map (λ a. a.size) generated.manifest.artifacts ≡ 1 ∷ 0 ∷ 3 ∷ [])
    × (generated.manifest.flash_size ≡ "4MB")
    × (generated.manifest.flash_mode ≡ "dio")
    × (generated.sdkconfig_marker ≡ "# CONFIG_BOOTMUX_USB_NETWORK_EXPERIMENTAL is not set")
unfolding generate_from artifact_name codes_start
generates = (refl, refl, refl, refl, refl, refl, refl)

abbrev done : Proc
done = record { returncode = pos 0; stdout = ""; stderr = "" }

-- What stands below the directory of the bench.
abbrev below : String → Option String
below path = elim (strip_prefix "/firmware" path) [
  | none ↦ none
  | some rest ↦ strip_prefix "/" rest
]

below_firmware : (path : String) → below ("/firmware" <> "/" <> path) ≡ some path
below_firmware path =
    rw (below, strip_prefix-append "/firmware" ("/" <> path)) (strip_prefix-append "/" path)

abbrev hash_below : Option String → Option String
hash_below none = none
hash_below (some path) = hash_at tree path

-- A bench whose firmware directory is the one above the build's.
abbrev bench : Bench
bench = record {
  State = Unit {0};
  manifest_of = λ s. some generated.manifest;
  firmware_dir = λ s. "/firmware";
  run_shield = λ args sudo s. ((pos 0, ""), s);
  install = λ s. (done, s);
  list_serial_ports = λ s. ([], s);
  check_rom = λ port s. ((true, ""), s);
  inspect = λ s. (done, s);
  json_inspection = λ out. none;
  json_fingerprint = λ out. none;
  sha_of = λ path s. hash_below (below path);
  find_esptool = λ s. (none, s);
  exec = λ cmd env s. (done, s);
  readback = λ s. none;
  unlink = λ s. s;
}

generate_manifest-accepted_example :
    All (Inspected tree) generated.manifest.artifacts
    × (first_mismatch bench "/firmware" generated.manifest.artifacts tt ≡ none)
unfolding generate_manifest
generate_manifest-accepted_example =
    generate_manifest-accepted tree generated bench "/firmware" tt refl
      (λ path. ap hash_below (below_firmware path))

generate_manifest-Ascending_example : Ascending generated.manifest.artifacts
unfolding generate_manifest
generate_manifest-Ascending_example = generate_manifest-Ascending tree generated refl
