-- ===== src/Base/Text.antt =====
-- What the programs use of Python's `str`, over the native texts: `lower`, `in`, truth, and
-- membership. Lower case is that of the ASCII letters.
use Prim.Native.Char.{code}
use Prim.Native.Nat.{ℕ, zero, suc, ◌+◌, ◌-◌, ◌/◌, ◌%◌}
use Prim.Native.String.{String, ◌++◌ as ◌<>◌}
use mathlib.Core.Path.{◌≡◌, refl, ap}
use native.Mathlib.Omega.{arith}
use text.Mathlib.TextEquality.{eq_iff}
use mathlib.Core.Bool.{Bool, true, false, ◌&&◌, ◌||◌}
use mathlib.Core.Option.{Option, none, some}
use mathlib.Core.List.{List, [], ◌∷◌, map}
use text.Mathlib.Text.{◌==◌, find?}
use bootmux.Base.Tests.{ltb, leb, eq_ℕ, if◌then◌else◌}
use bootmux.Base.Lists.{any, all}

-- The code points of a text.
abbrev pub codes : String → List ℕ
codes String.[] = []
codes (String.◌∷◌ c s) = code c ∷ codes s

abbrev pub lower_code : ℕ → ℕ
lower_code c = if leb b'A' c && leb c b'Z' then c + 32 else c

-- `s.lower()`, as code points.
unfoldable pub lower : String → List ℕ
lower s = map lower_code (codes s)

unfoldable pub codes_start : List ℕ → List ℕ → Bool
codes_start s [] = true
codes_start [] (d ∷ t) = false
codes_start (c ∷ s) (d ∷ t) = eq_ℕ c d && codes_start s t

-- `t in s`, for code points.
unfoldable pub codes_contain : List ℕ → List ℕ → Bool
unfolding codes_start
codes_contain [] t = codes_start [] t
codes_contain (c ∷ s) t = codes_start (c ∷ s) t || codes_contain s t

-- `t in s`
abbrev pub text_in : String → String → Bool
text_in t s = elim (find? s t) [ none ↦ false | some _ ↦ true ]

-- `x == t` where `x` may be None.
abbrev pub is_text : Option String → String → Bool
is_text none t = false
is_text (some s) t = s == t

-- `x == y` where both may be None.
abbrev pub same_text : Option String → Option String → Bool
same_text none none = true
same_text none (some t) = false
same_text (some s) none = false
same_text (some s) (some t) = s == t

-- The text that a test `if x:` lets through: neither None nor empty.
abbrev pub truthy : Option String → Option String
truthy none = none
truthy (some s) = if s == "" then none else some s

abbrev pub contains : String → List String → Bool
contains t xs = any (λ s. s == t) xs

abbrev pub same_texts : List String → List String → Bool
same_texts [] [] = true
same_texts [] (t ∷ ts) = false
same_texts (s ∷ ss) [] = false
same_texts (s ∷ ss) (t ∷ ts) = s == t && same_texts ss ts

-- `set(xs) == set(ys)`
abbrev pub same_set : List String → List String → Bool
same_set xs ys = all (λ x. contains x ys) xs && all (λ y. contains y xs) ys

abbrev pub digit : ℕ → String
digit n =
    if eq_ℕ n 0
    then "0"
    else if eq_ℕ n 1
    then "1"
    else if eq_ℕ n 2
    then "2"
    else if eq_ℕ n 3
    then "3"
    else if eq_ℕ n 4
    then "4"
    else if eq_ℕ n 5
    then "5"
    else if eq_ℕ n 6
    then "6"
    else if eq_ℕ n 7
    then "7"
    else if eq_ℕ n 8
    then "8"
    else "9"

decimal : ℕ → ℕ → String
decimal zero n = digit n
decimal (suc fuel) n =
    let front = decimal fuel (n / 10) in if ltb n 10 then digit n else front <> digit (n % 10)

-- `str(n)`; the number itself is more rounds than it has digits.
unfoldable pub show_ℕ : ℕ → String
unfolding decimal
show_ℕ n = decimal n n

-- An optional text inside an f-string.
abbrev pub show_text : Option String → String
show_text none = "None"
show_text (some s) = s

-- `sep.join(parts)`
unfoldable pub join : String → List String → String
join sep [] = ""
join sep (s ∷ []) = s
join sep (s ∷ t ∷ rest) = s <> sep <> join sep (t ∷ rest)

-- White space among the ASCII characters.
abbrev pub is_space : ℕ → Bool
is_space c = leb 9 c && leb c 13 || leb 28 c && leb c 32

unfoldable pub lstrip : String → String
lstrip String.[] = ""
lstrip (String.◌∷◌ c s) = let rest = lstrip s in if is_space (code c) then rest else String.◌∷◌ c s

unfoldable pub rstrip : String → String
rstrip String.[] = ""
rstrip (String.◌∷◌ c s) =
    let rest = rstrip s in if is_space (code c) && rest == "" then "" else String.◌∷◌ c rest

-- `s.strip()`
unfoldable pub strip : String → String
unfolding lstrip rstrip
strip s = rstrip (lstrip s)

-- `s[:n]`
unfoldable pub first_chars : ℕ → String → String
first_chars zero s = ""
first_chars (suc n) String.[] = ""
first_chars (suc n) (String.◌∷◌ c s) = String.◌∷◌ c (first_chars n s)

count_chars : String → ℕ
count_chars String.[] = 0
count_chars (String.◌∷◌ c s) = suc (count_chars s)

drop_chars : ℕ → String → String
drop_chars zero s = s
drop_chars (suc n) String.[] = ""
drop_chars (suc n) (String.◌∷◌ c s) = drop_chars n s

-- `s[-n:]`, for `n` above zero.
unfoldable pub last_chars : ℕ → String → String
unfolding count_chars drop_chars
last_chars n s = drop_chars (count_chars s - n) s

pub is_text-eq : (x : Option String) (t : String) → is_text x t ≡ true → x ≡ some t
is_text-eq none t h = cc
is_text-eq (some s) t h = ap some ((eq_iff s t).0 h)

pub truthy-eq : (x : Option String) {t : String} → truthy x ≡ some t → x ≡ some t
truthy-eq none h = h
truthy-eq (some s) h = ground arith

pub is_text_self : (t : String) → is_text (some t) t ≡ true
is_text_self t = (eq_iff t t).1 refl

pub same_texts-eq : (xs ys : List String) → same_texts xs ys ≡ true → xs ≡ ys
same_texts-eq [] [] h = refl
same_texts-eq [] (y ∷ ys) h = cc
same_texts-eq (x ∷ xs) [] h = cc
same_texts-eq (x ∷ xs) (y ∷ ys) h = ground (arith, eq_iff x y, same_texts-eq xs ys)

pub same_texts_self : (xs : List String) → same_texts xs xs ≡ true
same_texts_self [] = refl
same_texts_self (x ∷ xs) = ground (arith, eq_iff x x, same_texts_self xs)
