-- ===== src/Guardian/SystemHost/Devices.antt =====
-- scripts/macos/bootmux-network-guardian.py, `class SystemHost`: what `usb_devices` and
-- `interfaces` read in the output of ioreg and ifconfig.

use bootmux.Base.{zero, suc}
use bootmux.Base.{
  ℕ, Bool, false, not, ◌&&◌, Option, none, some, List, [], ◌∷◌, ◌++◌, String, ◌<>◌, ◌==◌, is_empty,
  codes, if◌then◌else◌,
}
use bootmux.Base.Lines.{split_lines, is_blank, strip_prefix}
use bootmux.Base.Search.{
  search, take_while, drop_while, before_first, before_last, is_number, given, int, blanks,
  then_text, assigned,
}
use bootmux.Guardian.Address.{split_dots}
use bootmux.Guardian.Data.{UsbDevice, Iface}
use bootmux.Guardian.SystemHost.Wifi.{inet}

-- `re.split(r"\+-o ", out)`
abbrev on_first : (String → String) → List String → List String
on_first f [] = f "" ∷ []
on_first f (b ∷ bs) = f b ∷ bs

-- What is left of the separator is skipped.
split_blocks : ℕ → String → List String
split_blocks _ String.[] = "" ∷ []
split_blocks (suc skip) (String.◌∷◌ c s) = split_blocks skip s
split_blocks zero (String.◌∷◌ c s) =
    let here = "" ∷ split_blocks 3 s in
    let on = on_first (λ b. String.◌∷◌ c b) (split_blocks zero s) in
    elim (strip_prefix "+-o " (String.◌∷◌ c s)) [ some _ ↦ here | none ↦ on ]

-- `"key"\s*=\s*(\d+)` and `"key"\s*=\s*"([^"]*)"`
number_field : String → String → Option ℕ
unfolding assigned take_while int
number_field key s = elim (assigned key s) [
  | none ↦ none
  | some r ↦ elim (given (take_while is_number r)) [ none ↦ none | some n ↦ some (int n) ]
]

text_field : String → String → Option String
unfolding assigned strip_prefix before_first
text_field key s = elim (then_text "\"" (assigned key s)) [
  | none ↦ none
  | some r ↦ before_first 34 r
]

abbrev or_empty : Option String → Option String
or_empty none = some ""
or_empty (some s) = some s

device_of : Option ℕ → Option ℕ → String → List UsbDevice
unfolding search text_field
device_of none pid block = []
device_of (some vid) none block = []
device_of (some vid) (some pid) block =
    (record {
      vid = some vid;
      pid = some pid;
      product = or_empty (search (text_field "\"USB Product Name\"") block);
      serial = or_empty (search (text_field "\"USB Serial Number\"") block);
    })
    ∷ []

devices_in : List String → List UsbDevice
unfolding device_of search number_field
devices_in [] = []
devices_in (block ∷ blocks) =
    device_of (search (number_field "\"idVendor\"") block)
      (search (number_field "\"idProduct\"") block) block
    ++ devices_in blocks

unfoldable pub read_devices : String → List UsbDevice
unfolding devices_in split_blocks
read_devices out = devices_in (split_blocks 0 out)

-- `^(\S+):\s+flags=`: the colon is the last character of the line's first word.
abbrev not_blank : ℕ → Bool
not_blank c = not (is_blank c)

-- What is in front of the colon that ends a word.
named : String → Option String
unfolding before_last
named word = elim (before_last 58 word) [
  | none ↦ none
  | some name ↦ if word == name <> ":" then given name else none
]

header : String → Option String
unfolding take_while drop_while blanks strip_prefix named
header line = elim (then_text "flags=" (blanks (drop_while not_blank line))) [
  | none ↦ none
  | some _ ↦ named (take_while not_blank line)
]

abbrev four_parts : List (List ℕ) → Bool
four_parts (a ∷ b ∷ c ∷ d ∷ []) =
    not (is_empty a) && not (is_empty b) && not (is_empty c) && not (is_empty d)
four_parts _ = false

-- `\d+\.\d+\.\d+\.\d+`, for a text of digits and dots.
quad : String → Bool
unfolding split_dots
quad s = four_parts (split_dots (codes s))

abbrev flush : Option Iface → List Iface
flush none = []
flush (some i) = i ∷ []

with_address : String → Option Iface → Option Iface
unfolding search inet quad
with_address line none = none
with_address line (some i) = elim (search (inet quad) line) [
  | none ↦ some i
  | some (address, mask) ↦ some (record i { addresses = i.addresses ++ (address ∷ []) })
]

-- The loop over the lines, from the interface that is being read.
interfaces_in : Option Iface → List String → List Iface
unfolding header with_address
interfaces_in current [] = flush current
interfaces_in current (line ∷ lines) = elim (header line) [
  | some name ↦ flush current ++ interfaces_in (some (record { name = name; addresses = [] })) lines
  | none ↦ interfaces_in (with_address line current) lines
]

unfoldable pub read_interfaces : String → List Iface
unfolding interfaces_in split_lines
read_interfaces out = interfaces_in none (split_lines out)
