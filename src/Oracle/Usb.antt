-- ===== src/Oracle/Usb.antt =====
-- scripts/macos/bootmux-usb-identity-oracle.py: the verdict on what `system_profiler` lists.
pub mod Hid
pub mod Live
use Prim.Native.Char.{code}
use bootmux.Base.{
  ℕ, ℤ, Bool, true, false, not, ◌&&◌, ◌||◌, Option, none, some, List, [], ◌∷◌, ◌++◌, map, String,
  ◌<>◌, ◌==◌, any, filter, is_empty, is_zero, lower, codes, codes_contain, strip, join, eq_ℕ,
  if◌then◌else◌,
}
use bootmux.Base.Dict.{get, put, get_or}
use bootmux.Base.Lines.{split_lines, mentions}
use bootmux.Base.Search.{before_last, given, blanks}

abbrev pub safe_product : String
safe_product = "BOOTMUX Keyboard Safe"

abbrev safe_serial : String
safe_serial = "BOOTMUX-HID-SAFE"

abbrev pub network_class_markers : List String
network_class_markers =
    "ncm" ∷ "ecm" ∷ "rndis" ∷ "cdc-ethernet" ∷ "cdc ethernet" ∷ "usb ethernet" ∷ "ethernet"
    ∷ "network" ∷ "eem" ∷ []

abbrev pub hid_markers : List String
hid_markers = "hid" ∷ "keyboard" ∷ "human interface" ∷ []

pub record Device : Type 0 where
  pub name : String
  pub fields : List (String × String)

-- `^(.+?):\s*$`, for a stripped line: the name, stripped.
header : String → Option String
unfolding before_last strip
header line = elim (before_last 58 line) [
  | none ↦ none
  | some name ↦ if line == name <> ":" && not (name == "") then some (strip name) else none
]

abbrev cons_key : String → Option (String × String) → Option (String × String)
cons_key c none = none
cons_key c (some (key, value)) = some (c <> key, value)

-- From the second character on, `(.*?):\s+(.*)$`.
split_field : String → Option (String × String)
unfolding blanks
split_field String.[] = none
split_field (String.◌∷◌ c s) =
    let later = cons_key (String.◌∷◌ c "") (split_field s) in
    if eq_ℕ (code c) 58
    then (elim (blanks s) [ some value ↦ some ("", value) | none ↦ later ])
    else later

-- `^(.+?):\s+(.*)$`: the key and the value, stripped.
field : String → Option (String × String)
unfolding split_field strip
field String.[] = none
field (String.◌∷◌ c s) = elim (cons_key (String.◌∷◌ c "") (split_field s)) [
  | none ↦ none
  | some (key, value) ↦ some (strip key, strip value)
]

abbrev flush : Option Device → List Device
flush none = []
flush (some d) = d ∷ []

with_field : Option Device → Option (String × String) → Option Device
unfolding put
with_field none f = none
with_field (some d) none = some d
with_field (some d) (some (key, value)) = some (record d { fields = put key value d.fields })

-- The loop over the lines, from the device that is being read.
devices_in : Option Device → List String → List Device
unfolding header field with_field strip
devices_in current [] = flush current
devices_in current (raw ∷ lines) =
    let line = strip raw in
    let skipped = devices_in current lines in
    let more = devices_in (with_field current (field line)) lines in
    if line == "" then skipped else elim (header line) [
      | some name ↦ flush current ++ devices_in (some (record { name = name; fields = [] })) lines
      | none ↦ more
    ]

unfoldable pub parse_usb_devices : String → List Device
unfolding devices_in split_lines
parse_usb_devices text = devices_in none (split_lines text)

-- The test for `bootmux`.
unfoldable pub is_bootmux : Device → Bool
unfolding get lower codes_contain
is_bootmux d =
    mentions "bootmux" d.name
    || mentions "bootmux" (get_or "" "Product ID" d.fields)
    || codes_contain (lower (get_or "" "Product" d.fields)) (lower safe_product)
    || codes_contain (lower d.name) (lower safe_product)

-- `blob`
unfoldable pub all_text : Device → List ℕ
unfolding join lower
all_text d = lower (join " " (map (λ e. e.0 <> " " <> e.1) d.fields)) ++ (32 ∷ lower d.name)

pub data Verdict : Type 0 where
  safe_hid_only network_class_present unsafe_product ambiguous : Verdict

pub record Identity : Type 0 where
  pub product_is_safe : Bool
  pub serial_is_safe : Option Bool
  pub hid_present : Bool
  pub network_class_absent : Bool
  pub network_markers_found : List String
  pub verdict : Verdict

-- `fields.get("Product", dev["name"])`
unfoldable pub product_of : Device → String
product_of d = get_or d.name "Product" d.fields

unfoldable pub judge : Bool → Bool → Bool → Verdict
judge product_is_safe hid_present network_class_absent =
    if product_is_safe && hid_present && network_class_absent
    then safe_hid_only
    else if not network_class_absent
    then network_class_present
    else if not product_is_safe
    then unsafe_product
    else ambiguous

unfoldable pub classify_device : Device → Identity
unfolding product_of all_text judge strip codes_contain
classify_device d =
    let serial = get_or "" "Serial Number" d.fields in
    let blob = all_text d in
    let safe = strip (product_of d) == safe_product in
    let hid = any (λ m. codes_contain blob (codes m)) hid_markers in
    let found = filter (λ m. codes_contain blob (codes m)) network_class_markers in
    record {
      product_is_safe = safe;
      serial_is_safe = if serial == "" then none else some (strip serial == safe_serial);
      hid_present = hid;
      network_class_absent = is_empty found;
      network_markers_found = found;
      verdict = judge safe hid (is_empty found);
    }

-- Nothing stands for the dict with the verdict NO_BOOTMUX_DEVICE.
unfoldable pub classify_first : List Device → Option Identity
unfolding classify_device
classify_first [] = none
classify_first (dev ∷ others) = some (classify_device dev)

unfoldable pub classify_bootmux : List Device → Option Identity
unfolding is_bootmux classify_first
classify_bootmux devices = classify_first (filter is_bootmux devices)

abbrev pub verdict_code : Verdict → ℕ
verdict_code v = elim v [ safe_hid_only ↦ 0 | _ ↦ 1 ]

abbrev pub exit_code : Option Identity → ℕ
exit_code none = 0
exit_code (some i) = verdict_code i.verdict

-- `live`, from the return code and the output of system_profiler.
unfoldable pub live : ℤ → String → ℕ
unfolding classify_bootmux parse_usb_devices
live returncode stdout =
    if is_zero returncode then exit_code (classify_bootmux (parse_usb_devices stdout)) else 2
