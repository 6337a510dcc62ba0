-- ===== src/Helpers/Secret/RoundTrip.antt =====
-- A file of secrets that is printed and read back.
use Prim.Native.Char.{Char, code}
use Prim.Native.String.append
use bootmux.Base.{
  ◌≡◌, refl, ap, ◌∙◌, true, false, not, ◌||◌, Option, none, some, List, All, All-map, All-mono, map,
  [], ◌∷◌, String, ◌<>◌, ◌==◌, eq_iff, contains, eq_ℕ, all, codes, codes_start, arith, Bool-cases,
  inl, inr,
}
use bootmux.Base.Dict.{put, get}
use bootmux.Base.Lines.{starts}
use bootmux.Base.Lines.Printed.{IsLine, IsLine-append, print_lines, split_lines-print_lines}
use bootmux.Helpers.Secret.{
  value_of, chosen, found, field_keys, partition, read_line, read_lines, read_field,
}

-- A line of the file.
pub data Item : Type 0 where
  blank : Item
  comment ssid password : String → Item

abbrev pub print_item : Item → String
print_item blank = ""
print_item (comment text) = "#" <> text
print_item (ssid value) = "BOOTMUX_WIFI_SSID" <> "=" <> value
print_item (password value) = "BOOTMUX_WIFI_PASSWORD" <> "=" <> value

abbrev pub print_secrets : List Item → String
print_secrets items = print_lines (map print_item items)

-- What a line may hold: printable characters of ASCII, and a field at least one.
abbrev pub IsItem : Item → Type 0
IsItem blank = Unit {0}
IsItem (comment text) = IsLine text
IsItem (ssid value) = IsLine value × ((value == "") ≡ false)
IsItem (password value) = IsLine value × ((value == "") ≡ false)

-- The last value that the lines give to a field, behind an earlier one.
abbrev pub last_ssid : Option String → List Item → Option String
last_ssid before [] = before
last_ssid before (ssid value ∷ items) = last_ssid (some value) items
last_ssid before (_ ∷ items) = last_ssid before items

abbrev pub last_password : Option String → List Item → Option String
last_password before [] = before
last_password before (password value ∷ items) = last_password (some value) items
last_password before (_ ∷ items) = last_password before items

-- A key without an equals sign is read back.
partition-key :
    (key value : String)
    → all (λ c. not (eq_ℕ c 61)) (codes key) ≡ true
    → partition (key <> "=" <> value) ≡ some (key, value)
unfolding partition
partition-key String.[] value h =
    rw (append.nil ("=" <> value), append.cons "=" "" value, append.nil value) refl
partition-key (String.◌∷◌ c key) value h =
    let other : eq_ℕ (code c) 61 ≡ false = ground arith in
    let rest = partition-key key value (ground arith) in
    rw
      (
        append.cons c key ("=" <> value),
        partition,
        other,
        rest,
        append.cons c "" key,
        append.nil key,
      )
      refl

cons_empty : (c : Char) (s : String) → (String.◌∷◌ c s == "") ≡ false
cons_empty c s = elim (Bool-cases (String.◌∷◌ c s == "")) [
  | inr other ↦ other
  | inl same ↦ let e : String.◌∷◌ c s ≡ "" = (eq_iff (String.◌∷◌ c s) "").0 same in cc
]

-- A line that starts with no number sign is no comment, nor empty.
no_comment :
    (c : Char) (s : String)
    → eq_ℕ (code c) 35 ≡ false
    → (String.◌∷◌ c s == "" || starts (String.◌∷◌ c s) "#") ≡ false
unfolding codes_start
no_comment c s h = rw (cons_empty c s, codes_start) (ground arith)

entry_line :
    (c : Char) (k value : String) (values : List (String × String))
    → eq_ℕ (code c) 35 ≡ false
    → all (λ d. not (eq_ℕ d 61)) (codes (String.◌∷◌ c k)) ≡ true
    → contains (String.◌∷◌ c k) field_keys ≡ true
    → (value == "") ≡ false
    → read_line (String.◌∷◌ c k <> "=" <> value) values ≡ some (put (String.◌∷◌ c k) value values)
unfolding read_line
entry_line c k value values start plain known given =
    let parts : partition (String.◌∷◌ c (k <> "=" <> value)) ≡ some (String.◌∷◌ c k, value) =
      rw (append.cons c k ("=" <> value)) at (partition-key (String.◌∷◌ c k) value plain) in
    rw
      (
        append.cons c k ("=" <> value),
        read_line,
        no_comment c (k <> "=" <> value) start,
        parts,
        known,
        given,
      )
      refl

-- The values that are collected, by what each field has been given.
data Has : Option String → Option String → List (String × String) → Type 0 where
  none_yet : Has none none []
  an_ssid : {s : String} → Has (some s) none (("BOOTMUX_WIFI_SSID", s) ∷ [])
  a_password : {p : String} → Has none (some p) (("BOOTMUX_WIFI_PASSWORD", p) ∷ [])
  ssid_first :
      {s p : String}
      → Has (some s) (some p) (("BOOTMUX_WIFI_SSID", s) ∷ ("BOOTMUX_WIFI_PASSWORD", p) ∷ [])
  password_first :
      {s p : String}
      → Has (some s) (some p) (("BOOTMUX_WIFI_PASSWORD", p) ∷ ("BOOTMUX_WIFI_SSID", s) ∷ [])

put-ssid :
    (v : String) {o q : Option String} {values : List (String × String)}
    → Has o q values
    → Has (some v) q (put "BOOTMUX_WIFI_SSID" v values)
unfolding put
put-ssid v none_yet = an_ssid
put-ssid v an_ssid = an_ssid
put-ssid v a_password = password_first
put-ssid v ssid_first = ssid_first
put-ssid v password_first = password_first

put-password :
    (v : String) {o q : Option String} {values : List (String × String)}
    → Has o q values
    → Has o (some v) (put "BOOTMUX_WIFI_PASSWORD" v values)
unfolding put
put-password v none_yet = a_password
put-password v an_ssid = ssid_first
put-password v a_password = a_password
put-password v ssid_first = ssid_first
put-password v password_first = password_first

comment_line :
    (text : String) (values : List (String × String)) → read_line ("#" <> text) values ≡ some values
unfolding read_line codes_start
comment_line text values = rw (append.cons "#" "" text, append.nil text) (ground arith)

read_lines-cons :
    (line : String) (lines : List String) (values more : List (String × String))
    → read_line line values ≡ some more
    → read_lines (line ∷ lines) values ≡ read_lines lines more
unfolding read_lines
read_lines-cons line lines values more h = rw (read_lines, h) refl

-- The values that the lines leave.
Collects : List Item → Option String → Option String → List (String × String) → Type 0
Collects items o q values =
    (after : List (String × String)) × (read_lines (map print_item items) values ≡ some after)
    × Has (last_ssid o items) (last_password q items) after

read_lines-Collects :
    (items : List Item) {o q : Option String} {values : List (String × String)}
    → All IsItem items
    → Has o q values
    → Collects items o q values
unfolding Collects read_lines
read_lines-Collects [] h has = (_, refl, has)
read_lines-Collects (blank ∷ items) {values} (h, hs) has =
    let (after, e, k) = read_lines-Collects items hs has in (after, e, k)
read_lines-Collects (comment text ∷ items) {values} (h, hs) has =
    let (after, e, k) = read_lines-Collects items hs has in
    (after, read_lines-cons _ (map print_item items) values _ (comment_line text values) ∙ e, k)
read_lines-Collects (ssid v ∷ items) {values} ((line, given), hs) has =
    let first = entry_line "B" "OOTMUX_WIFI_SSID" v values refl refl refl given in
    let (after, e, k) = read_lines-Collects items hs (put-ssid v has) in
    (after, read_lines-cons _ (map print_item items) values _ first ∙ e, k)
read_lines-Collects (password v ∷ items) {values} ((line, given), hs) has =
    let first = entry_line "B" "OOTMUX_WIFI_PASSWORD" v values refl refl refl given in
    let (after, e, k) = read_lines-Collects items hs (put-password v has) in
    (after, read_lines-cons _ (map print_item items) values _ first ∙ e, k)

Has-value_of :
    {o q : Option String} {s p : String} {values : List (String × String)}
    → Has o q values
    → o ≡ some s
    → q ≡ some p
    → (value_of "ssid" (some values) ≡ found s) × (value_of "password" (some values) ≡ found p)
unfolding get
Has-value_of none_yet e f = cc
Has-value_of an_ssid e f = cc
Has-value_of a_password e f = cc
Has-value_of (ssid_first {s} {p}) e f = (ap (λ o. chosen o) e, ap (λ o. chosen o) f)
Has-value_of (password_first {s} {p}) e f = (ap (λ o. chosen o) e, ap (λ o. chosen o) f)

print_item-IsLine : (i : Item) → IsItem i → IsLine (print_item i)
print_item-IsLine blank h = refl
print_item-IsLine (comment text) h = IsLine-append "#" text refl h
print_item-IsLine (ssid v) (h, given) =
    IsLine-append "BOOTMUX_WIFI_SSID" ("=" <> v) refl (IsLine-append "=" v refl h)
print_item-IsLine (password v) (h, given) =
    IsLine-append "BOOTMUX_WIFI_PASSWORD" ("=" <> v) refl (IsLine-append "=" v refl h)

-- A secrets file of mode 0600, each line of which is empty, a comment, or one of the two fields with a
-- value, of printable characters of ASCII and any number in any order, is read back field by field where
-- both fields stand in it, and the last line of a field counts.
pub read_field-print_secrets :
    (items : List Item) {s p : String}
    → All IsItem items
    → last_ssid none items ≡ some s
    → last_password none items ≡ some p
    → (read_field (some 0o600) (some (print_secrets items)) "ssid" ≡ found s)
      × (read_field (some 0o600) (some (print_secrets items)) "password" ≡ found p)
unfolding read_field Collects
read_field-print_secrets items h e f =
    let lines =
      split_lines-print_lines (map print_item items)
        (All-map print_item IsLine items (All-mono IsItem _ items print_item-IsLine h)) in
    let (after, r, has) = read_lines-Collects items h none_yet in
    let read = ap (λ ls. read_lines ls []) lines ∙ r in
    let (a, b) = Has-value_of has e f in
    (ap (value_of "ssid") read ∙ a, ap (value_of "password") read ∙ b)
