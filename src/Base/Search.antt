-- ===== src/Base/Search.antt =====
-- What the programs use of Python's `re` on the output of commands. A pattern is a function that
-- reads it at the start of a text and gives what its group matches.
use Prim.Native.Char.{code}
use Prim.Native.Nat.{ℕ, ◌+◌, ◌-◌, ◌*◌}
use Prim.Native.String.{String}
use mathlib.Core.Bool.{Bool, not, ◌&&◌, ◌||◌}
use mathlib.Core.Option.{Option, none, some}
use mathlib.Core.List.{List, [], ◌∷◌}
use text.Mathlib.Text.{◌==◌}
use bootmux.Base.Tests.{leb, eq_ℕ, if◌then◌else◌}
use bootmux.Base.Lists.{all}
use bootmux.Base.Text.{codes, lstrip}
use bootmux.Base.Lines.{strip_prefix, starts_blank}

-- `re.search`: the first place where the pattern matches.
unfoldable pub search {ℓ} : {A : Type ℓ} → (String → Option A) → String → Option A
search pattern String.[] = pattern ""
search pattern (String.◌∷◌ c s) =
    let rest = search pattern s in
    elim (pattern (String.◌∷◌ c s)) [ some found ↦ some found | none ↦ rest ]

-- The longest start of a text whose characters pass, and what comes behind it.
unfoldable pub take_while : (ℕ → Bool) → String → String
take_while p String.[] = ""
take_while p (String.◌∷◌ c s) =
    let rest = take_while p s in if p (code c) then String.◌∷◌ c rest else ""

unfoldable pub drop_while : (ℕ → Bool) → String → String
drop_while p String.[] = ""
drop_while p (String.◌∷◌ c s) =
    let rest = drop_while p s in if p (code c) then rest else String.◌∷◌ c s

-- What comes in front of the first, and of the last, character of this code.
unfoldable pub before_first : ℕ → String → Option String
before_first d String.[] = none
before_first d (String.◌∷◌ c s) =
    let rest = before_first d s in
    if eq_ℕ (code c) d
    then some ""
    else elim rest [ none ↦ none | some front ↦ some (String.◌∷◌ c front) ]

unfoldable pub before_last : ℕ → String → Option String
before_last d String.[] = none
before_last d (String.◌∷◌ c s) =
    let rest = before_last d s in
    elim rest [
      | some front ↦ some (String.◌∷◌ c front)
      | none ↦ if eq_ℕ (code c) d then some "" else none
    ]

abbrev pub is_number : ℕ → Bool
is_number c = leb 48 c && leb c 57

-- `[\d.]`
abbrev pub is_dotted : ℕ → Bool
is_dotted c = is_number c || eq_ℕ c 46

abbrev pub is_hex : ℕ → Bool
is_hex c = is_number c || leb 65 c && leb c 70 || leb 97 c && leb c 102

-- A text that is not empty.
abbrev pub given : String → Option String
given s = if s == "" then none else some s

-- `re.match(r"^[...]+$", s)`, for a text of one line.
abbrev pub consists : (ℕ → Bool) → String → Bool
consists p s = not (s == "") && all p (codes s)

value_from : ℕ → List ℕ → ℕ
value_from n [] = n
value_from n (c ∷ s) = value_from (n * 10 + (c - 48)) s

-- `int(s)`, for a text of digits.
unfoldable pub int : String → ℕ
unfolding value_from
int s = value_from 0 (codes s)

abbrev hex_digit : ℕ → ℕ
hex_digit c = if leb c 57 then c - 48 else if leb c 70 then c - 55 else c - 87

hex_from : ℕ → List ℕ → ℕ
hex_from n [] = n
hex_from n (c ∷ s) = hex_from (n * 16 + hex_digit c) s

-- `int(s, 16)`, for a text of hexadecimal digits.
unfoldable pub int_16 : String → ℕ
unfolding hex_from
int_16 s = hex_from 0 (codes s)

-- `\s*`, and `\s+`, before the rest of a pattern that starts with no white space.
unfoldable pub blanks : String → Option String
unfolding starts_blank lstrip
blanks s = if s == "" then none else if starts_blank s then some (lstrip s) else none

abbrev pub then_text : String → Option String → Option String
then_text marker none = none
then_text marker (some s) = strip_prefix marker s

abbrev pub then_blanks : Option String → Option String
then_blanks none = none
then_blanks (some s) = blanks s

-- `marker\s*=\s*` at the start of a text.
unfoldable pub assigned : String → String → Option String
unfolding lstrip strip_prefix
assigned marker s = elim (strip_prefix marker s) [
  | none ↦ none
  | some r ↦ elim (strip_prefix "=" (lstrip r)) [ none ↦ none | some t ↦ some (lstrip t) ]
]
