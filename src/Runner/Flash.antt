-- ===== src/Runner/Flash.antt =====
-- scripts/macos/bootmux-safe-flash-runner.py: `build_flash_command` and `verify_flash_sha`. The
-- offset of an artifact is a text of hexadecimal digits, with or without 0x.
use bootmux.Base.{
  ℕ, zero, suc, ◌+◌, ◌-◌, ◌*◌, ◌/◌, Bool, false, none, some, List, [], ◌∷◌, ◌++◌, String, ◌<>◌,
  ◌==◌, all, codes, codes_start, lower, leb, ltb, digit, eq_ℕ, first_chars, is_zero, show_ℕ,
  if◌then◌else◌,
}
use Prim.Native.Nat.{◌%◌}
use bootmux.Runner.Data.{Artifact, Manifest, Esptool, Bench}

abbrev artifact_words : String → List Artifact → List String
artifact_words firmware [] = []
artifact_words firmware (a ∷ artifacts) =
    a.offset ∷ (firmware <> "/" <> a.path) ∷ artifact_words firmware artifacts

-- `build_flash_command`; `firmware` is `build_dir.parent`.
abbrev pub build_flash_command : Esptool → String → Manifest → String → List String
build_flash_command tool port manifest firmware =
    tool.argv
    ++ ("--chip"
        ∷ "esp32s3"
        ∷ "--port"
        ∷ port
        ∷ "--baud"
        ∷ "460800"
        ∷ "--before"
        ∷ "default_reset"
        ∷ "--after"
        ∷ "hard_reset"
        ∷ "write_flash"
        ∷ "--flash_mode"
        ∷ manifest.flash_mode
        ∷ "--flash_freq"
        ∷ manifest.flash_freq
        ∷ "--flash_size"
        ∷ manifest.flash_size
        ∷ artifact_words firmware manifest.artifacts)

hex_value : ℕ → List ℕ → ℕ
hex_value n [] = n
hex_value n (c ∷ cs) = hex_value (16 * n + (if leb c 57 then c - 48 else c - 87)) cs

without_0x : List ℕ → List ℕ
without_0x (a ∷ b ∷ cs) = if codes_start (a ∷ b ∷ []) (codes "0x") then cs else a ∷ b ∷ cs
without_0x cs = cs

-- `int(offset, 16)`
parse_hex : String → ℕ
unfolding lower without_0x hex_value codes_start
parse_hex offset = hex_value 0 (without_0x (lower offset))

hex_digit : ℕ → String
hex_digit n =
    if ltb n 10
    then digit n
    else if eq_ℕ n 10
    then "a"
    else if eq_ℕ n 11
    then "b"
    else if eq_ℕ n 12
    then "c"
    else if eq_ℕ n 13
    then "d"
    else if eq_ℕ n 14
    then "e"
    else "f"

hex_digits : ℕ → ℕ → String
unfolding hex_digit
hex_digits zero n = hex_digit n
hex_digits (suc fuel) n =
    let front = hex_digits fuel (n / 16) in
    if ltb n 16 then hex_digit n else front <> hex_digit (n % 16)

-- `hex(n)`; the number itself is more rounds than it has digits.
show_hex : ℕ → String
unfolding hex_digits
show_hex n = "0x" <> hex_digits n n

read_command : Esptool → String → Artifact → List String
unfolding parse_hex show_hex show_ℕ
read_command tool port a =
    tool.argv
    ++ ("--chip"
        ∷ "esp32s3"
        ∷ "--port"
        ∷ port
        ∷ "read_flash"
        ∷ show_hex (parse_hex a.offset)
        ∷ show_ℕ a.size
        ∷ "/tmp/bootmux-readback.bin"
        ∷ [])

-- What the dict of an artifact says.
pub data Check : Type 0 where
  read_failed : String → Check
  readback_missing : Check
  compared : (actual expected : String) → Check

abbrev pub is_green : Check → Bool
is_green (read_failed _) = false
is_green readback_missing = false
is_green (compared actual expected) = actual == expected

pub data FlashStatus : Type 0 where
  esptool_missing : FlashStatus
  checked : List (String × Check) → FlashStatus

-- result["status"]
abbrev pub flash_status : FlashStatus → String
flash_status esptool_missing = "YELLOW"
flash_status (checked results) = if all (λ r. is_green r.1) results then "GREEN" else "RED"

module _ (bench : Bench) where
  -- One round of the loop.
  unfoldable pub check_artifact : Esptool → String → Artifact → bench.State → Check × bench.State
  unfolding read_command
  check_artifact tool port a s =
      let (proc, s') = bench.exec (read_command tool port a) tool.env s in
      if is_zero proc.returncode
      then elim (bench.readback s') [
        | none ↦ (readback_missing, s')
        | some actual ↦ (compared actual a.sha256, bench.unlink s')
      ]
      else (read_failed (first_chars 200 proc.stderr), s')

  check_artifacts :
      Esptool → String → List Artifact → bench.State → List (String × Check) × bench.State
  unfolding check_artifact
  check_artifacts tool port [] s = ([], s)
  check_artifacts tool port (a ∷ artifacts) s =
      let (check, s') = check_artifact tool port a s in
      let (results, s'') = check_artifacts tool port artifacts s' in
      ((a.name, check) ∷ results, s'')

  unfoldable pub verify_flash_sha : String → Manifest → bench.State → FlashStatus × bench.State
  unfolding check_artifacts
  verify_flash_sha port manifest s =
      let (found, s') = bench.find_esptool s in
      elim found [
        | none ↦ (esptool_missing, s')
        | some tool ↦
            let (results, s'') = check_artifacts tool port manifest.artifacts s' in
            (checked results, s'')
      ]
