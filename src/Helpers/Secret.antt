-- ===== src/Helpers/Secret.antt =====
-- scripts/bootmux-copy-local-wifi-secret.py: `read_field`. The file's text is that of its lines.
pub mod RoundTrip
use Prim.Native.Char.{code}
use bootmux.Base.{
  ◌≡◌, refl, ℕ, Bool, true, false, not, ◌&&◌, ◌||◌, Option, none, some, List, [], ◌∷◌, String, ◌<>◌,
  ◌==◌, contains, eq_ℕ, same_set, if◌then◌else◌,
}
use bootmux.Base.Dict.{get, put, keys, get_or}
use bootmux.Base.Lines.{split_lines, starts}

-- FIELDS
abbrev fields : List (String × String)
fields = ("ssid", "BOOTMUX_WIFI_SSID") ∷ ("password", "BOOTMUX_WIFI_PASSWORD") ∷ []

abbrev pub field_keys : List String
field_keys = "BOOTMUX_WIFI_SSID" ∷ "BOOTMUX_WIFI_PASSWORD" ∷ []

-- What `fail` prints, or the value.
pub data Outcome : Type 0 where
  unavailable bad_permissions bad_format unreadable bad_keys no_field : Outcome
  found : String → Outcome

-- `line.partition("=")`, where there is a separator.
abbrev cons_key : String → Option (String × String) → Option (String × String)
cons_key c none = none
cons_key c (some (key, value)) = some (c <> key, value)

unfoldable pub partition : String → Option (String × String)
partition String.[] = none
partition (String.◌∷◌ c s) =
    let rest = cons_key (String.◌∷◌ c "") (partition s) in
    if eq_ℕ (code c) 61 then some ("", s) else rest

-- The test on a line with a separator, and what it adds.
abbrev accept_entry :
    Option (String × String) → List (String × String) → Option (List (String × String))
accept_entry none values = none
accept_entry (some (key, value)) values =
    if not (contains key field_keys) || value == "" then none else some (put key value values)

-- One round of the loop; nothing where the format fails.
unfoldable pub read_line : String → List (String × String) → Option (List (String × String))
unfolding partition
read_line line values =
    if line == "" || starts line "#" then some values else accept_entry (partition line) values

unfoldable pub read_lines : List String → List (String × String) → Option (List (String × String))
unfolding read_line
read_lines [] values = some values
read_lines (line ∷ lines) values = elim (read_line line values) [
  | none ↦ none
  | some more ↦ read_lines lines more
]

abbrev pub chosen : Option String → Outcome
chosen none = no_field
chosen (some value) = found value

abbrev pub value_of : String → Option (List (String × String)) → Outcome
value_of field none = bad_format
value_of field (some values) =
    if same_set (keys values) field_keys
    then chosen (get (get_or "" field fields) values)
    else bad_keys

-- `read_field`, from the file's mode and its text where each can be read.
unfoldable pub read_field : Option ℕ → Option String → String → Outcome
unfolding read_lines split_lines get
read_field none text field = unavailable
read_field (some mode) none field = if eq_ℕ mode 0o600 then unreadable else bad_permissions
read_field (some mode) (some text) field =
    if eq_ℕ mode 0o600 then value_of field (read_lines (split_lines text) []) else bad_permissions
