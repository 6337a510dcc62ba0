-- ===== src/Oracle/Serial.antt =====
-- scripts/macos/bootmux-serial-marker-oracle.py: the verdict on a captured serial log.
use bootmux.Base.{
  ◌≡◌, ◌↔◌, refl, ℕ, Bool, true, false, not, Option, none, some, List, [], ◌∷◌, map, String, ◌==◌,
  filter, is_empty, none_found, All, arith, lower, codes, codes_contain, if◌then◌else◌,
}

abbrev safe_required : List String
safe_required = "BOOTMUX_USB_NETWORK_SAFE_OFF" ∷ []

abbrev experimental_required : List String
experimental_required =
    "BOOTMUX_USB_NETIF_DOWN_AT_BOOT_EXPERIMENTAL" ∷ "BOOTMUX_USB_NETWORK_NO_DHCP_NO_DEFAULT_ROUTE"
    ∷ []

abbrev pub panic_markers : List String
panic_markers =
    "guru meditation error" ∷ "panic" ∷ "watchdog" ∷ "brownout" ∷ "abort()" ∷ "backtrace:"
    ∷ "core  0 panic" ∷ "core  1 panic" ∷ []

pub data Verdict : Type 0 where
  missing_required_markers panic_detected clean : Verdict

pub record Report : Type 0 where
  pub profile : String
  pub required_markers : List (String × Bool)
  pub missing_required : List String
  pub panic_markers_found : List String
  pub verdict : Verdict

unfoldable pub required_of : String → List String
required_of profile =
    if profile == "safe"
    then safe_required
    else if profile == "experimental"
    then experimental_required
    else []

-- `m in text` and `m in lower`
abbrev pub in_text : String → String → Bool
in_text text m = codes_contain (codes text) (codes m)

abbrev pub in_lower : String → String → Bool
in_lower text m = codes_contain (lower text) (codes m)

abbrev pub verdict_of : List String → List String → Verdict
verdict_of missing panics =
    if not (is_empty missing)
    then missing_required_markers
    else if not (is_empty panics)
    then panic_detected
    else clean

-- `[m for m, present in found_required.items() if not present]`
abbrev pub missing_of : List (String × Bool) → List String
missing_of found = map (λ e. e.0) (filter (λ e. not e.1) found)

unfoldable pub check_serial_log : String → String → Report
unfolding required_of
check_serial_log text profile =
    let found = map (λ m. (m, in_text text m)) (required_of profile) in
    let missing = missing_of found in
    let panics = filter (in_lower text) panic_markers in
    record {
      profile = profile;
      required_markers = found;
      missing_required = missing;
      panic_markers_found = panics;
      verdict = verdict_of missing panics;
    }

abbrev pub verdict_code : Verdict → ℕ
verdict_code v = elim v [ clean ↦ 0 | _ ↦ 1 ]

-- The command `check`, from the file's text where it can be read.
unfoldable pub check : Option String → String → ℕ
unfolding check_serial_log
check none profile = 2
check (some text) profile = verdict_code (check_serial_log text profile).verdict

none_missing :
    (text : String) (ms : List String)
    → (is_empty (missing_of (map (λ m. (m, in_text text m)) ms)) ≡ true)
      ↔ All (λ m. in_text text m ≡ true) ms
none_missing text [] = (λ _. tt, λ _. refl)
none_missing text (m ∷ ms) =
    let (there, back) = none_missing text ms in
    (λ h. (ground arith, there (ground arith)), λ (h, hs). let k = back hs in ground arith)

verdict_zero :
    (missing panics : List String)
    → (verdict_code (verdict_of missing panics) ≡ 0)
      ↔ ((is_empty missing ≡ true) × (is_empty panics ≡ true))
verdict_zero [] [] = (λ _. (refl, refl), λ _. refl)
verdict_zero [] (p ∷ ps) = (λ h. cc, λ h. cc)
verdict_zero (m ∷ ms) panics = (λ h. cc, λ h. cc)

-- `check` exits with 0 on a text exactly when each marker that the profile requires stands in it and no
-- panic marker stands in its lower case.
pub check-zero_iff :
    (text profile : String)
    → (check (some text) profile ≡ 0) ↔ (
        All (λ m. in_text text m ≡ true) (required_of profile)
        × All (λ m. in_lower text m ≡ false) panic_markers)
unfolding check check_serial_log
check-zero_iff text profile =
    let (there, back) =
      verdict_zero (missing_of (map (λ m. (m, in_text text m)) (required_of profile)))
        (filter (in_lower text) panic_markers) in
    let (missing, none_there) = none_missing text (required_of profile) in
    let (panics, no_panic) = none_found (in_lower text) panic_markers in
    (λ h. let (a, b) = there h in (missing a, panics b), λ (a, b). back (none_there a, no_panic b))
