-- ===== src/Base/Lines.antt =====
-- What the programs use of Python's `str` on the output of commands. White space, digits and lower
-- case are those of ASCII.
pub mod Printed
use Prim.Native.Char.{code}
use Prim.Native.Nat.{ℕ}
use Prim.Native.String.{String}
use mathlib.Core.Bool.{Bool, true, not, ◌&&◌, ◌||◌}
use mathlib.Core.Option.{Option, none, some}
use mathlib.Core.List.{List, [], ◌∷◌}
use text.Mathlib.Text.{◌==◌}
use bootmux.Base.Tests.{leb, eq_ℕ, if◌then◌else◌}
use bootmux.Base.Lists.{any}
use bootmux.Base.Text.{codes, codes_start, codes_contain, lower, lstrip, strip}

-- The ends of a line for `splitlines`.
abbrev pub is_break : ℕ → Bool
is_break c =
    leb 10 c && leb c 13 || leb 28 c && leb c 30 || eq_ℕ c 133 || eq_ℕ c 8232 || eq_ℕ c 8233

abbrev pub is_blank : ℕ → Bool
is_blank c = leb 9 c && leb c 13 || leb 28 c && leb c 32

-- What begins a text whose rest has these lines: a break ends a line, and a text that ends in a
-- break has no further line.
abbrev pub on_first : (String → String) → List String → List String
on_first f [] = f "" ∷ []
on_first f (l ∷ ls) = f l ∷ ls

-- `text.splitlines()`; a carriage return before a line feed belongs to the same break.
unfoldable pub split_lines : String → List String
split_lines String.[] = []
split_lines (String.◌∷◌ c s) =
    let rest = split_lines s in
    if is_break (code c)
    then (if eq_ℕ (code c) 13 && codes_start (codes s) (10 ∷ []) then rest else "" ∷ rest)
    else on_first (λ l. String.◌∷◌ c l) rest

unfoldable pub starts_blank : String → Bool
starts_blank String.[] = true
starts_blank (String.◌∷◌ c s) = is_blank (code c)

-- `text.split()`: the words between white space.
unfoldable pub split_words : String → List String
unfolding starts_blank
split_words String.[] = []
split_words (String.◌∷◌ c s) =
    let rest = split_words s in
    if is_blank (code c)
    then rest
    else if starts_blank s
    then String.◌∷◌ c "" ∷ rest
    else on_first (λ l. String.◌∷◌ c l) rest

-- `line.startswith(prefix)`
abbrev pub starts : String → String → Bool
starts line prefix = codes_start (codes line) (codes prefix)

-- `word in text.lower()`, for a word in lower case.
abbrev pub mentions : String → String → Bool
mentions word text = codes_contain (lower text) (codes word)

past_colon : String → String
past_colon String.[] = ""
past_colon (String.◌∷◌ c s) = let rest = past_colon s in if eq_ℕ (code c) 58 then s else rest

-- `line.split(":", 1)[1].strip()`, for a line with a colon.
unfoldable pub after_colon : String → String
unfolding past_colon strip
after_colon line = strip (past_colon line)

unfoldable pub strip_prefix : String → String → Option String
strip_prefix String.[] s = some s
strip_prefix (String.◌∷◌ c p) String.[] = none
strip_prefix (String.◌∷◌ c p) (String.◌∷◌ d s) =
    let rest = strip_prefix p s in if eq_ℕ (code c) (code d) then rest else none

past_text : String → String → Option String
unfolding strip_prefix
past_text marker String.[] = none
past_text marker (String.◌∷◌ c s) =
    let rest = past_text marker s in
    elim (strip_prefix marker (String.◌∷◌ c s)) [ some found ↦ some found | none ↦ rest ]

first_line : String → String
first_line String.[] = ""
first_line (String.◌∷◌ c s) =
    let rest = first_line s in if eq_ℕ (code c) 10 then "" else String.◌∷◌ c rest

-- `re.search(marker + r"\s*(.+)", text)`, with `.strip()` of what it finds. Where only white space
-- follows the marker, the pattern gives some of it back.
unfoldable pub search_after : String → String → Option String
unfolding past_text first_line lstrip strip
search_after marker text = elim (past_text marker text) [
  | none ↦ none
  | some rest ↦
      if not (lstrip rest == "")
      then some (strip (first_line (lstrip rest)))
      else if any (λ c. not (eq_ℕ c 10)) (codes rest)
      then some ""
      else none
]
