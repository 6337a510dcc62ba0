-- ===== src/Base/Lines/Printed.antt =====
-- What `split_lines` and `split_words` read in lines that are printed word by word.
use Prim.Native.Char.{Char, code}
use Prim.Native.String.append
use Prim.Native.Nat.{ℕ, zero, suc}
use Prim.Native.String.{String, ◌++◌ as ◌<>◌}
use mathlib.Core.Path.{◌≡◌, refl, ap, ◌∙◌}
use mathlib.Core.Bool.{Bool, true, false, ◌&&◌}
use mathlib.Core.Option.{some}
use mathlib.Core.List.{List, [], ◌∷◌}
use native.Mathlib.Omega.{arith}
use bootmux.Base.Tests.{leb, eq_ℕ, if◌then◌else◌}
use bootmux.Base.Lists.{all, All}
use bootmux.Base.Text.{codes}
use bootmux.Base.Lines.{is_break, on_first, starts_blank, strip_prefix, split_words, split_lines}

-- A printed character of ASCII, other than the space.
abbrev pub is_graphic : ℕ → Bool
is_graphic c = leb 33 c && leb c 126

-- A word and a line.
abbrev pub IsWord : String → Type 0
IsWord String.[] = ⊥
IsWord (String.◌∷◌ c s) = all is_graphic (codes (String.◌∷◌ c s)) ≡ true

abbrev pub is_plain : ℕ → Bool
is_plain c = leb 32 c && leb c 126

-- A text behind a space, and behind the end of a line.
abbrev pub spaced : String → String
spaced s = String.◌∷◌ " " s

abbrev pub broken : String → String
broken s = String.◌∷◌ "\n" s

words_cons :
    (c : Char) (s rest : String)
    → is_graphic (code c) ≡ true
    → split_words (String.◌∷◌ c s <> spaced rest) ≡ (
        if starts_blank (s <> spaced rest)
        then String.◌∷◌ c "" ∷ split_words (s <> spaced rest)
        else on_first (λ l. String.◌∷◌ c l) (split_words (s <> spaced rest)))
unfolding split_words
words_cons c s rest h = rw (append.cons c s (spaced rest)) (ground arith)

graphic_start :
    (d : Char) (s rest : String)
    → is_graphic (code d) ≡ true
    → starts_blank (String.◌∷◌ d s <> spaced rest) ≡ false
unfolding starts_blank
graphic_start d s rest h = rw (append.cons d s (spaced rest)) (ground arith)

-- A word and a space are read as that word.
pub split_words-word :
    (w rest : String) → IsWord w → split_words (w <> spaced rest) ≡ w ∷ split_words rest
unfolding split_words starts_blank
split_words-word String.[] rest k = elim k [ ]
split_words-word (String.◌∷◌ c String.[]) rest k =
    let g : is_graphic (code c) ≡ true = ground arith in
    rw (words_cons c "" rest g, append.nil (spaced rest)) refl
split_words-word (String.◌∷◌ c (String.◌∷◌ d s)) rest k =
    let ih = split_words-word (String.◌∷◌ d s) rest (ground arith) in
    let g : is_graphic (code c) ≡ true = ground arith in
    let gd : is_graphic (code d) ≡ true = ground arith in
    rw (words_cons c (String.◌∷◌ d s) rest g, graphic_start d s rest gd, ih) refl

-- A line and its end are read as that line.
pub split_lines-line :
    (l rest : String)
    → all is_plain (codes l) ≡ true
    → split_lines (l <> broken rest) ≡ l ∷ split_lines rest
unfolding split_lines
split_lines-line String.[] rest h = rw (append.nil (broken rest)) refl
split_lines-line (String.◌∷◌ c s) rest h =
    let ih = split_lines-line s rest (ground arith) in
    let inside : is_break (code c) ≡ false = ground arith in
    rw (append.cons c s (broken rest), split_lines, inside, ih) refl

-- A text behind more spaces.
unfoldable pub indented : ℕ → String → String
indented zero s = s
indented (suc n) s = spaced (indented n s)

pub split_words-indented : (n : ℕ) (s : String) → split_words (indented n s) ≡ split_words s
unfolding indented split_words
split_words-indented zero s = refl
split_words-indented (suc n) s = split_words-indented n s

-- Lines, each with its end.
unfoldable pub print_lines : List String → String
print_lines [] = ""
print_lines (l ∷ ls) = l <> broken (print_lines ls)

abbrev pub IsLine : String → Type 0
IsLine l = all is_plain (codes l) ≡ true

pub split_lines-print_lines : (ls : List String) → All IsLine ls → split_lines (print_lines ls) ≡ ls
unfolding print_lines split_lines
split_lines-print_lines [] h = refl
split_lines-print_lines (l ∷ ls) (h, hs) =
    split_lines-line l (print_lines ls) h ∙ ap (λ r. l ∷ r) (split_lines-print_lines ls hs)

pub IsLine-append : (s t : String) → IsLine s → IsLine t → IsLine (s <> t)
IsLine-append String.[] t h k = rw (append.nil t) k
IsLine-append (String.◌∷◌ c s) t h k =
    let ih = IsLine-append s t (ground arith) k in rw (append.cons c s t) (ground arith)

graphic-plain : (cs : List ℕ) → all is_graphic cs ≡ true → all is_plain cs ≡ true
graphic-plain [] h = refl
graphic-plain (c ∷ cs) h = let ih = graphic-plain cs (ground arith) in ground arith

pub IsWord-IsLine : (w : String) → IsWord w → IsLine w
IsWord-IsLine String.[] h = refl
IsWord-IsLine (String.◌∷◌ c s) h = graphic-plain (codes (String.◌∷◌ c s)) h

pub IsLine-indented : (n : ℕ) (s : String) → IsLine s → IsLine (indented n s)
unfolding indented
IsLine-indented zero s h = h
IsLine-indented (suc n) s h = let ih = IsLine-indented n s h in ground arith

same_code : (n : ℕ) → eq_ℕ n n ≡ true
same_code n = ground arith

pub strip_prefix-append : (p s : String) → strip_prefix p (p <> s) ≡ some s
unfolding strip_prefix
strip_prefix-append String.[] s = rw (append.nil s) refl
strip_prefix-append (String.◌∷◌ c p) s =
    rw (append.cons c p s, strip_prefix, same_code (code c)) (strip_prefix-append p s)
