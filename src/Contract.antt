-- ===== src/Contract.antt =====
-- scripts/check-contract-sync.py: the prose helpers, `_function_body`, and the checks of the readme
-- and of the safe and the experimental profile. A signature's pattern is a function that gives what
-- follows its match. White space, digits and word characters are those of ASCII.
pub mod Balanced
pub mod Profiles
mod Tests
use Prim.Native.Char.{code}
use bootmux.Base.{
  ℕ, zero, suc, ◌+◌, ◌-◌, ◌*◌, Bool, true, false, not, ◌&&◌, ◌||◌, Option, none, some, List, [],
  ◌∷◌, ◌++◌, String, ◌<>◌, ◌==◌, codes, codes_contain, eq_ℕ, leb, filter, join, map, if◌then◌else◌,
}
use bootmux.Base.Lines.{split_words, strip_prefix}
use bootmux.Base.Search.{search, before_first, is_number}

-- `value in text`
abbrev pub has : String → String → Bool
has text value = codes_contain (codes text) (codes value)

-- What stands between a mark at the start and the next, where there is something: the group of
-- `\*\*([^*]+)\*\*` and its like.
between : String → ℕ → String → Option String
unfolding strip_prefix before_first
between mark stop s = elim (strip_prefix mark s) [
  | none ↦ none
  | some rest ↦ elim (before_first stop rest) [
    | none ↦ none
    | some inner ↦
        if inner == ""
        then none
        else elim (strip_prefix (inner <> mark) rest) [ none ↦ none | some after ↦ some inner ]
  ]
]

count : String → ℕ
count String.[] = 0
count (String.◌∷◌ c s) = suc (count s)

-- `re.sub` with that group; what is left of a match is skipped.
unmark : ℕ → String → ℕ → String → String
unfolding between count
unmark skip mark stop String.[] = ""
unmark (suc skip) mark stop (String.◌∷◌ c s) = unmark skip mark stop s
unmark zero mark stop (String.◌∷◌ c s) =
    let kept = String.◌∷◌ c (unmark 0 mark stop s) in
    elim (between mark stop (String.◌∷◌ c s)) [
      | none ↦ kept
      | some inner ↦ inner <> unmark (count inner + 2 * count mark - 1) mark stop s
    ]

unfoldable pub normalize_prose : String → String
unfolding unmark split_words join
normalize_prose text =
    join " " (split_words (unmark 0 "`" 96 (unmark 0 "*" 42 (unmark 0 "**" 42 text))))

unfoldable pub prose_contains : String → String → Bool
unfolding normalize_prose
prose_contains text phrase = has (normalize_prose text) (normalize_prose phrase)

-- From an opening brace on, the text up to the brace that closes it.
abbrev cons_text : String → Option String → Option String
cons_text c none = none
cons_text c (some s) = some (c <> s)

unfoldable pub braced : ℕ → String → Option String
braced depth String.[] = none
braced depth (String.◌∷◌ c s) =
    let opened = cons_text (String.◌∷◌ c "") (braced (suc depth) s) in
    let same = cons_text (String.◌∷◌ c "") (braced depth s) in
    if eq_ℕ (code c) 123
    then opened
    else if eq_ℕ (code c) 125
    then (elim depth [
      | zero ↦ none
      | suc d ↦
          if eq_ℕ d 0 then some (String.◌∷◌ c "") else cons_text (String.◌∷◌ c "") (braced d s)
    ])
    else same

-- `source.find("{", ...)`, and the body from there.
unfoldable pub from_brace : String → Option String
unfolding braced
from_brace String.[] = none
from_brace (String.◌∷◌ c s) =
    let later = from_brace s in if eq_ℕ (code c) 123 then braced 0 (String.◌∷◌ c s) else later

abbrev pub or_none : Option String → String
or_none none = ""
or_none (some s) = s

-- `_function_body`
unfoldable pub function_body : (String → Option String) → String → String
unfolding from_brace
function_body signature source = elim (search signature source) [
  | none ↦ ""
  | some after ↦ or_none (from_brace after)
]
