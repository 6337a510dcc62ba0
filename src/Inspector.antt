-- ===== src/Inspector.antt =====
-- scripts/macos/bootmux-safe-flash-inspect.py: the verdict on the binaries of a build. `hashlib` and the
-- files are parameters; a binary is its bytes, a text its code points.
pub mod Scan
pub mod Sound
pub mod Tests
use bootmux.Base.{
  ℕ, Bool, true, false, not, ◌&&◌, Option, none, some, List, [], ◌∷◌, map, filter, find, any, all,
  length, is_empty, String, ◌==◌, eq_ℕ, codes, codes_contain, if◌then◌else◌,
}
use bootmux.Inspector.Scan.{scan_binary_strings, all_text}

abbrev pub forbidden_patterns : List String
forbidden_patterns =
    "CDC_ECM" ∷ "CDC_NCM" ∷ "RNDIS" ∷ "rndis" ∷ "usb_network" ∷ "USB_NETIF" ∷ "tinyusb_net"
    ∷ "tusb_net" ∷ "napt_enable" ∷ "ip_forward_enable" ∷ "BOOTMUX Bridge Experimental"
    ∷ "BOOTMUX-R7A-NCM" ∷ "TUSB_CLASS_CDC" ∷ "CDC_COMM_SUBCLASS" ∷ "lwip_ip_forward" ∷ "IP_FORWARD"
    ∷ []

abbrev safe_off_marker : String
safe_off_marker = "BOOTMUX_USB_NETWORK_SAFE_OFF"

-- An entry of the manifest's artifacts, with the keys that the inspector reads.
pub record Artifact : Type 0 where
  pub name : String
  pub path : String
  pub size : ℕ
  pub sha256 : String

pub record Manifest : Type 0 where
  pub sdkconfig_marker : Option String
  pub artifacts : List Artifact
  pub product : Option String
  pub serial : Option String

-- The files beside the build directory, where they exist, and `sha256_file` of a file's bytes.
pub record Build : Type 0 where
  pub sdkconfig : Option (List ℕ)
  pub read_bytes : String → Option (List ℕ)
  pub sha256_file : List ℕ → String

abbrev get_text : Option String → String
get_text none = ""
get_text (some s) = s

-- `[s for s in strings if any(p in s for p in FORBIDDEN_PATTERNS)]`
unfoldable pub forbidden_found : List (List ℕ) → List (List ℕ)
unfolding codes_contain
forbidden_found strings =
    filter (λ s. any (λ p. codes_contain s (codes p)) forbidden_patterns) strings

pub data ArtifactResult : Type 0 where
  absent : ArtifactResult
  inspected : (size_match sha256_match forbidden_clean : Bool) → ArtifactResult

unfoldable pub inspect_bytes : Build → Artifact → Option (List ℕ) → ArtifactResult
unfolding scan_binary_strings forbidden_found
inspect_bytes build e none = absent
inspect_bytes build e (some bytes) =
    inspected (eq_ℕ (length bytes) e.size) (build.sha256_file bytes == e.sha256)
      (is_empty (forbidden_found (scan_binary_strings bytes)))

-- `inspect_artifact`
unfoldable pub inspect_artifact : Build → Artifact → ArtifactResult
unfolding inspect_bytes
inspect_artifact build e = inspect_bytes build e (build.read_bytes e.path)

-- `art_result["status"] == "GREEN"`
abbrev pub is_green : ArtifactResult → Bool
is_green absent = false
is_green (inspected size_match sha256_match forbidden_clean) =
    size_match && sha256_match && forbidden_clean

abbrev or_last : Option (List ℕ) → Option (List ℕ) → Option (List ℕ)
or_last before none = before
or_last before (some bytes) = some bytes

-- `app_data`: the bytes of the last application of the manifest that is there.
application_data : Build → Option (List ℕ) → List Artifact → Option (List ℕ)
application_data build found [] = found
application_data build found (e ∷ es) =
    application_data build
      (if e.name == "application" then or_last found (build.read_bytes e.path) else found) es

-- The test for a text among the strings of a binary; it fails without one.
abbrev in_strings : String → Option (List ℕ) → Bool
in_strings text none = false
in_strings text (some bytes) = codes_contain (all_text (scan_binary_strings bytes)) (codes text)

unfoldable pub verify_usb_identity : Build → Manifest → Bool
unfolding all_text scan_binary_strings codes_contain
verify_usb_identity build m = elim (find (λ e. e.name == "application") m.artifacts) [
  | none ↦ false
  | some e ↦
      in_strings (get_text m.product) (build.read_bytes e.path)
      && in_strings (get_text m.serial) (build.read_bytes e.path)
]

abbrev pub marker_in : Option String → Option (List ℕ) → Bool
marker_in marker none = false
marker_in marker (some content) = codes_contain content (codes (get_text marker))

-- `results["overall"] == "GREEN"` of `inspect_build`.
unfoldable pub inspect_build : Build → Manifest → Bool
unfolding inspect_artifact application_data verify_usb_identity all_text scan_binary_strings
    codes_contain
inspect_build build m =
    all (λ e. is_green (inspect_artifact build e)) m.artifacts
    && marker_in m.sdkconfig_marker build.sdkconfig
    && in_strings safe_off_marker (application_data build none m.artifacts)
    && verify_usb_identity build m
