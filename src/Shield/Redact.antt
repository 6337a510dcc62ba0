-- ===== src/Shield/Redact.antt =====
-- scripts/macos/bootmux-attach-shield.py: `redact`. A matcher gives the length of the match at the
-- start of a text; each of the three regular expressions matches there in one way only.
use Prim.Native.Char.{code}
use bootmux.Base.{
  ℕ, zero, suc, ◌+◌, ◌-◌, Bool, false, not, ◌&&◌, ◌||◌, Option, none, some, List, [], ◌∷◌, String,
  ◌<>◌, codes, codes_start, leb, eq_ℕ, if◌then◌else◌,
}
use bootmux.Base.Lines.{is_blank}

abbrev is_digit : ℕ → Bool
is_digit c = leb 48 c && leb c 57

abbrev is_hex : ℕ → Bool
is_hex c = is_digit c || leb 65 c && leb c 70 || leb 97 c && leb c 102

abbrev is_word : ℕ → Bool
is_word c = is_digit c || leb 65 c && leb c 90 || leb 97 c && leb c 122 || eq_ℕ c 95

-- Two hex digits and a separator, as often as told, and two more.
hex_pairs : ℕ → List ℕ → Bool
hex_pairs zero (a ∷ b ∷ s) = is_hex a && is_hex b
hex_pairs (suc n) (a ∷ b ∷ c ∷ s) =
    is_hex a && is_hex b && (eq_ℕ c 58 || eq_ℕ c 45) && hex_pairs n s
hex_pairs _ _ = false

mac_match : Bool → List ℕ → Option ℕ
unfolding hex_pairs
mac_match after_word s = if hex_pairs 5 s then some 17 else none

count_digits : List ℕ → ℕ
count_digits [] = 0
count_digits (c ∷ s) = let rest = count_digits s in if is_digit c then suc rest else 0

drop_codes : ℕ → List ℕ → List ℕ
drop_codes zero s = s
drop_codes (suc n) [] = []
drop_codes (suc n) (c ∷ s) = drop_codes n s

abbrev few : ℕ → Bool
few n = leb 1 n && leb n 3

-- The numbers that are still to come, each behind a dot, and the word's end.
more_numbers : ℕ → List ℕ → Option ℕ
unfolding count_digits drop_codes
more_numbers zero [] = some 0
more_numbers zero (c ∷ s) = if is_word c then none else some 0
more_numbers (suc n) [] = none
more_numbers (suc n) (c ∷ s) =
    let k = count_digits s in
    let rest = more_numbers n (drop_codes k s) in
    if eq_ℕ c 46 && few k then (elim rest [ none ↦ none | some m ↦ some (suc k + m) ]) else none

ip_match : Bool → List ℕ → Option ℕ
unfolding more_numbers
ip_match after_word s =
    let k = count_digits s in
    if not after_word && few k
    then (elim (more_numbers 3 (drop_codes k s)) [ none ↦ none | some m ↦ some (k + m) ])
    else none

path_length : List ℕ → ℕ
path_length [] = 0
path_length (c ∷ s) = let rest = path_length s in if eq_ℕ c 47 || is_blank c then 0 else suc rest

path_match : Bool → List ℕ → Option ℕ
unfolding codes_start path_length drop_codes
path_match after_word s =
    if codes_start s (codes "/Users/") && leb 1 (path_length (drop_codes 7 s))
    then some (7 + path_length (drop_codes 7 s))
    else none

-- `regex.sub(REDACTED, text)`: `skip` characters belong to the last match; the flag says that a
-- character of a word stands before.
sub : (Bool → List ℕ → Option ℕ) → ℕ → Bool → String → String
sub match skip after_word String.[] = ""
sub match (suc skip) after_word (String.◌∷◌ c s) = sub match skip (is_word (code c)) s
sub match zero after_word (String.◌∷◌ c s) =
    let kept = String.◌∷◌ c (sub match 0 (is_word (code c)) s) in
    elim (match after_word (codes (String.◌∷◌ c s))) [
      | none ↦ kept
      | some n ↦ "<redacted>" <> sub match (n - 1) (is_word (code c)) s
    ]

unfoldable pub redact : String → String
unfolding sub mac_match ip_match path_match
redact text = sub path_match 0 false (sub ip_match 0 false (sub mac_match 0 false text))
