-- ===== src/Generator.antt =====
-- scripts/macos/generate-safe-manifest.py: the manifest of a build. Paths are relative to the directory
-- above the build's and in their normal form; an offset is hexadecimal, with or without `0x`; the files
-- do not change meanwhile, and SHA-256 is a parameter.
pub mod Accepted
pub mod Order
mod Tests
use Prim.Native.Char.{code}
use bootmux.Base.{
  ℕ, Bool, true, false, not, ◌&&◌, Option, none, some, List, [], ◌∷◌, ◌++◌, map, String, ◌<>◌, ◌==◌,
  all, codes, eq_ℕ, leb, length, strip, if◌then◌else◌,
}
use bootmux.Base.Dict.{get, get_or, keys}
use bootmux.Base.Lines.{split_lines, starts, strip_prefix}
use bootmux.Base.Search.{before_last, int_16}
use bootmux.Runner.Data.{Artifact, Manifest}

-- What is read of flasher_args.json.
pub record Flasher : Type 0 where
  pub flash_settings : List (String × String)
  pub flash_files : List (String × String)

-- The files, and the build directory's name.
pub record Tree : Type 0 where
  pub build_dir : String
  pub flasher_args : Option Flasher
  pub read_bytes : String → Option (List ℕ)
  pub sha256_file : List ℕ → String
  pub sdkconfig : Option String
  pub sdkconfig_defaults : Option String

-- The loop of `detect_marker` over the lines.
unfoldable pub marker_in_lines : String → List String → String
unfolding strip
marker_in_lines key [] = ""
marker_in_lines key (line ∷ lines) =
    let rest = marker_in_lines key lines in
    if starts (strip line) ("# " <> key <> " is not set") then strip line else rest

unfoldable pub detect_marker : String → String → String
unfolding marker_in_lines split_lines
detect_marker lines key = marker_in_lines key (split_lines lines)

abbrev pub marker_key : String
marker_key = "CONFIG_BOOTMUX_USB_NETWORK_EXPERIMENTAL"

-- `extract_sdkconfig_marker`, also of sdkconfig.defaults.
unfoldable pub extract_sdkconfig_marker : Option String → String
unfolding detect_marker
extract_sdkconfig_marker none = ""
extract_sdkconfig_marker (some content) = detect_marker content marker_key

unfoldable pub sdkconfig_marker : Tree → String
unfolding extract_sdkconfig_marker
sdkconfig_marker t =
    let marker = extract_sdkconfig_marker t.sdkconfig in
    if marker == "" then extract_sdkconfig_marker t.sdkconfig_defaults else marker

-- `int(x, 16)`
unfoldable pub offset_value : String → ℕ
unfolding strip_prefix int_16
offset_value x = elim (strip_prefix "0x" x) [ none ↦ int_16 x | some digits ↦ int_16 digits ]

-- `sorted(flash_files.keys(), key=lambda x: int(x, 16))`, with what the keys stand for; it is stable.
unfoldable pub insert_file : String × String → List (String × String) → List (String × String)
unfolding offset_value
insert_file f [] = f ∷ []
insert_file f (g ∷ files) =
    let rest = insert_file f files in
    if leb (offset_value f.0) (offset_value g.0) then f ∷ g ∷ files else g ∷ rest

unfoldable pub sort_files : List (String × String) → List (String × String)
unfolding insert_file
sort_files [] = []
sort_files (f ∷ files) = insert_file f (sort_files files)

name_map : List (String × String)
name_map = ("0x0", "bootloader") ∷ ("0x8000", "partition-table") ∷ ("0x10000", "application") ∷ []

-- What is behind the last slash.
base_name : String → String
base_name String.[] = ""
base_name (String.◌∷◌ c s) =
    if all (λ d. not (eq_ℕ d 47)) (codes (String.◌∷◌ c s)) then String.◌∷◌ c s else base_name s

-- `os.path.splitext(name)[0]`: a dot that only dots precede starts no extension.
stem : String → String
unfolding before_last
stem name = elim (before_last 46 name) [
  | none ↦ name
  | some front ↦ if all (λ d. eq_ℕ d 46) (codes front) then name else front
]

unfoldable pub artifact_name : String → String → String
unfolding name_map base_name stem get
artifact_name offset rel_path = get_or (stem (base_name rel_path)) offset name_map

-- The entry of a file that was found.
abbrev pub artifact_of : Tree → String → String → String → List ℕ → Artifact
artifact_of t offset rel_path path bytes = record {
  name = artifact_name offset rel_path;
  path = path;
  offset = offset;
  size = length bytes;
  sha256 = t.sha256_file bytes;
}

unfoldable pub alternative : Tree → String → String → Option (List ℕ) → List Artifact
alternative t offset rel_path none = []
alternative t offset rel_path (some bytes) = artifact_of t offset rel_path rel_path bytes ∷ []

unfoldable pub located : Tree → String → String → Option (List ℕ) → List Artifact
unfolding alternative
located t offset rel_path none = alternative t offset rel_path (t.read_bytes rel_path)
located t offset rel_path (some bytes) =
    artifact_of t offset rel_path (t.build_dir <> "/" <> rel_path) bytes ∷ []

-- The loop over the sorted offsets: a file in the build directory, or above it, or none.
unfoldable pub artifacts_in : Tree → List (String × String) → List Artifact
unfolding located
artifacts_in t [] = []
artifacts_in t ((offset, rel_path) ∷ files) =
    located t offset rel_path (t.read_bytes (t.build_dir <> "/" <> rel_path))
    ++ artifacts_in t files

-- What is written, with the keys that the runner, the inspector and the others read.
pub record Generated : Type 0 where
  pub manifest : Manifest
  pub sdkconfig_marker : String
  pub product : String
  pub serial : String
  pub forbidden_strings : List String
  pub required_strings : List String

unfoldable pub generate_from : Tree → Flasher → Generated
unfolding sort_files artifacts_in sdkconfig_marker get
generate_from t flasher = record {
  manifest = record {
    build_dir = t.build_dir;
    flash_mode = get_or "dio" "flash_mode" flasher.flash_settings;
    flash_freq = get_or "80m" "flash_freq" flasher.flash_settings;
    flash_size = get_or "2MB" "flash_size" flasher.flash_settings;
    artifacts = artifacts_in t (sort_files flasher.flash_files);
  };
  sdkconfig_marker = sdkconfig_marker t;
  product = "BOOTMUX Keyboard Safe";
  serial = "BOOTMUX-HID-SAFE";
  forbidden_strings =
      "CDC_ECM" ∷ "CDC_NCM" ∷ "RNDIS" ∷ "rndis" ∷ "usb_network" ∷ "USB_NETIF" ∷ "tinyusb_net"
      ∷ "tusb_net" ∷ "dhcps_start" ∷ "dhcp_server_start" ∷ "napt_enable" ∷ "ip_forward_enable"
      ∷ "BOOTMUX Bridge Experimental" ∷ "BOOTMUX-R7A-NCM" ∷ [];
  required_strings =
      "BOOTMUX Keyboard Safe" ∷ "BOOTMUX-HID-SAFE" ∷ "BOOTMUX_USB_NETWORK_SAFE_OFF" ∷ [];
}

-- Nothing where flasher_args.json is missing and the program exits with 1.
unfoldable pub generate_manifest : Tree → Option Generated
unfolding generate_from
generate_manifest t = elim t.flasher_args [
  | none ↦ none
  | some flasher ↦ some (generate_from t flasher)
]
