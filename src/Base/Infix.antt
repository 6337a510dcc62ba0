-- ===== src/Base/Infix.antt =====
-- Code points within code points: what `t in s` means, and what keeps it.
use Prim.Native.Char.{code}
use Prim.Native.Nat.{ℕ}
use Prim.Native.String.{String, ◌++◌ as ◌<>◌}
use Prim.Native.String.append
use mathlib.Core.Path.{◌≡◌, refl, sym, ap, ◌∙◌}
use mathlib.Core.Bool.{true, false, ◌&&◌}
use mathlib.Core.Logic.{inl, inr}
use mathlib.Core.Option.{Option, none, some}
use mathlib.Core.List.{List, [], ◌∷◌, ◌++◌, map, append_assoc, append-nil, map-append}
use native.Mathlib.Omega.{arith}
use text.Mathlib.Text.{◌==◌}
use bootmux.Base.Tests.{if◌then◌else◌, if_case, Bool-cases}
use bootmux.Base.Dict.{get}
use bootmux.Base.Text.{codes, codes_start, codes_contain, is_space, strip, lstrip, rstrip, join}

-- `t` stands somewhere in `s`.
abbrev pub Infix : List ℕ → List ℕ → Type 0
Infix t s = (before : List ℕ) × (after : List ℕ) × (s ≡ before ++ (t ++ after))

start-append : (t after : List ℕ) → codes_start (t ++ after) t ≡ true
unfolding codes_start
start-append [] after = ground arith
start-append (c ∷ t) after = ground (arith, start-append t after)

start-contain : (s t : List ℕ) → codes_start s t ≡ true → codes_contain s t ≡ true
unfolding codes_contain
start-contain [] t h = h
start-contain (c ∷ s) t h = ground arith

contain-infix : (before t after : List ℕ) → codes_contain (before ++ (t ++ after)) t ≡ true
unfolding codes_contain
contain-infix [] t after = start-contain (t ++ after) t (start-append t after)
contain-infix (c ∷ before) t after = ground (arith, contain-infix before t after)

pub Infix-contain : (t s : List ℕ) → Infix t s → codes_contain s t ≡ true
Infix-contain t s (before, after, e) = rw e (contain-infix before t after)

pub Infix-refl : (s : List ℕ) → Infix s s
Infix-refl s = ([], [], sym (append-nil s))

pub Infix-trans : (r s t : List ℕ) → Infix r s → Infix s t → Infix r t
Infix-trans r s t (b, a, e) (b', a', e') = (b' ++ b, a ++ a', e' ∙ rw e (simp append_assoc))

pub Infix-left : (t s u : List ℕ) → Infix t s → Infix t (s ++ u)
Infix-left t s u (b, a, e) = (b, a ++ u, rw e (simp append_assoc))

pub Infix-right : (t s u : List ℕ) → Infix t u → Infix t (s ++ u)
Infix-right t s u (b, a, e) = (s ++ b, a, rw e (simp append_assoc))

pub Infix-map : (f : ℕ → ℕ) (t s : List ℕ) → Infix t s → Infix (map f t) (map f s)
Infix-map f t s (b, a, e) = (map f b, map f a, rw e (simp map-append))

pub codes-append : (s t : String) → codes (s <> t) ≡ codes s ++ codes t
codes-append String.[] t = rw (append.nil t) refl
codes-append (String.◌∷◌ c s) t = rw (append.cons c s t) (ap (λ cs. code c ∷ cs) (codes-append s t))

lstrip-Infix : (s : String) → (before : List ℕ) × (codes s ≡ before ++ codes (lstrip s))
unfolding lstrip
lstrip-Infix String.[] = ([], refl)
lstrip-Infix (String.◌∷◌ c s) =
    if_case (λ r. (before : List ℕ) × (code c ∷ codes s ≡ before ++ codes r)) (is_space (code c))
      (lstrip s) (String.◌∷◌ c s)
      (λ _. let (before, e) = lstrip-Infix s in (code c ∷ before, ap (λ cs. code c ∷ cs) e))
      (λ _. ([], refl))

rstrip-Infix : (s : String) → (after : List ℕ) × (codes s ≡ codes (rstrip s) ++ after)
unfolding rstrip
rstrip-Infix String.[] = ([], refl)
rstrip-Infix (String.◌∷◌ c s) =
    if_case (λ r. (after : List ℕ) × (code c ∷ codes s ≡ codes r ++ after))
      (is_space (code c) && rstrip s == "") "" (String.◌∷◌ c (rstrip s))
      (λ _. (code c ∷ codes s, refl))
      (λ _. let (after, e) = rstrip-Infix s in (after, ap (λ cs. code c ∷ cs) e))

pub strip-Infix : (s : String) → Infix (codes (strip s)) (codes s)
unfolding strip
strip-Infix s =
    let (before, e) = lstrip-Infix s in
    let (after, k) = rstrip-Infix (lstrip s) in (before, after, e ∙ ap (λ cs. before ++ cs) k)

in_left : (t : List ℕ) (a b : String) → Infix t (codes a) → Infix t (codes (a <> b))
in_left t a b h = rw (codes-append a b) (Infix-left t (codes a) (codes b) h)

in_right : (t : List ℕ) (a b : String) → Infix t (codes b) → Infix t (codes (a <> b))
in_right t a b h = rw (codes-append a b) (Infix-right t (codes a) (codes b) h)

value_in : (j w v : String) → w ≡ v → Infix (codes v) (codes (j <> " " <> w))
value_in j w v e =
    in_right (codes v) j (" " <> w) (in_right (codes v) " " w (rw e (Infix-refl (codes v))))

found_here :
    (j k w v : String) (rest : Option String)
    → (j == k) ≡ true
    → (if j == k then some w else rest) ≡ some v
    → w ≡ v
found_here j k w v rest here h = ground arith

found_later :
    (j k w v : String) (rest : Option String)
    → (j == k) ≡ false
    → (if j == k then some w else rest) ≡ some v
    → rest ≡ some v
found_later j k w v rest here h = ground arith

-- An entry's value stands in the text of all entries.
pub get-join-Infix :
    (k v : String) (d : List (String × String))
    → get k d ≡ some v
    → Infix (codes v) (codes (join " " (map (λ e. e.0 <> " " <> e.1) d)))
unfolding get join
get-join-Infix k v [] h = cc
get-join-Infix k v ((j, w) ∷ []) h = elim (Bool-cases (j == k)) [
  | inl here ↦ value_in j w v (found_here j k w v none here h)
  | inr apart ↦ cc (found_later j k w v none apart h)
]
get-join-Infix k v ((j, w) ∷ e ∷ d) h =
    let entry = j <> " " <> w in
    let others = join " " (map (λ e. e.0 <> " " <> e.1) (e ∷ d)) in
    elim (Bool-cases (j == k)) [
      | inl here ↦
          in_left (codes v) entry (" " <> others)
            (value_in j w v (found_here j k w v (get k (e ∷ d)) here h))
      | inr apart ↦ in_right (codes v) entry (" " <> others) (
          in_right (codes v) " " others
            (get-join-Infix k v (e ∷ d) (found_later j k w v (get k (e ∷ d)) apart h)))
    ]
