-- ===== src/Oracle/Usb/Live.antt =====
-- When the command `live` exits with 0.
use bootmux.Base.{
  ◌≡◌, ◌↔◌, refl, ℤ, Bool, true, false, some, List, [], ◌∷◌, String, ◌==◌, eq_iff, filter, any,
  is_empty, is_zero, Bool-cases, none_found, inl, inr, All, codes, codes_contain, strip,
}
use bootmux.Oracle.Usb.{
  Device, safe_product, product_of, all_text, judge, hid_markers, network_class_markers,
  classify_device, classify_bootmux, classify_first, exit_code, verdict_code, is_bootmux, live,
  parse_usb_devices,
}
use bootmux.Oracle.Usb.Hid.{safe-hid, any_second}

-- The device has the safe product, and its text none of the markers of a network class.
abbrev pub IsSafe : Device → Type 0
IsSafe d =
    (strip (product_of d) ≡ safe_product)
    × All (λ m. codes_contain (all_text d) (codes m) ≡ false) network_class_markers

-- The first device, where there is one, is safe.
abbrev pub FirstIsSafe : List Device → Type 0
FirstIsSafe [] = Unit
FirstIsSafe (d ∷ others) = IsSafe d

judge_zero :
    (safe hid absent : Bool)
    → (safe ≡ true → hid ≡ true)
    → (verdict_code (judge safe hid absent) ≡ 0) ↔ ((safe ≡ true) × (absent ≡ true))
unfolding judge
judge_zero true true true f = (λ _. (refl, refl), λ _. refl)
judge_zero true true false f = (λ h. cc, λ h. cc)
judge_zero true false absent f = let k = f refl in (λ h. cc, λ h. cc)
judge_zero false true true f = (λ h. cc, λ h. cc)
judge_zero false true false f = (λ h. cc, λ h. cc)
judge_zero false false true f = (λ h. cc, λ h. cc)
judge_zero false false false f = (λ h. cc, λ h. cc)

device_zero : (d : Device) → (exit_code (some (classify_device d)) ≡ 0) ↔ IsSafe d
unfolding classify_device
device_zero d =
    let found : String → Bool = λ m. codes_contain (all_text d) (codes m) in
    let (there, back) =
      judge_zero (strip (product_of d) == safe_product) (any found hid_markers)
        (is_empty (filter found network_class_markers))
        (λ safe. any_second _ _ _ (safe-hid d safe)) in
    let (absent, none_there) = none_found found network_class_markers in
    let same = eq_iff (strip (product_of d)) safe_product in
    (
      λ h. let (safe, clear) = there h in (same.0 safe, absent clear),
      λ (safe, clear). back (same.1 safe, none_there clear),
    )

first_zero :
    (devices : List Device) → (exit_code (classify_first devices) ≡ 0) ↔ FirstIsSafe devices
unfolding classify_first
first_zero [] = (λ _. tt, λ _. refl)
first_zero (d ∷ others) = device_zero d

-- `live` exits with 0 exactly when system_profiler succeeded and the first BOOTMUX device that it lists,
-- if any, has the safe product and no marker of a network class in its text; no other device counts,
-- nor does HID or the serial number.
pub live-zero_iff :
    (returncode : ℤ) (stdout : String)
    → (live returncode stdout ≡ 0)
      ↔ ((is_zero returncode ≡ true) × FirstIsSafe (filter is_bootmux (parse_usb_devices stdout)))
unfolding live classify_bootmux
live-zero_iff returncode stdout = elim (Bool-cases (is_zero returncode)) [
  | inl good ↦
      let (there, back) = first_zero (filter is_bootmux (parse_usb_devices stdout)) in
      rw good (λ h. (refl, there h), λ (_, safe). back safe)
  | inr bad ↦ rw bad (λ h. cc, λ h. cc)
]
