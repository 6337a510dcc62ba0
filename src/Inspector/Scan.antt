-- ===== src/Inspector/Scan.antt =====
-- `scan_binary_strings`: the printable runs of at least six bytes.
use bootmux.Base.{
  ◌≡◌, refl, ℕ, ◌≤◌, Bool, true, false, ◌&&◌, ◌||◌, List, [], ◌∷◌, ◌++◌, filter, any, all, length,
  arith, leb, eq_ℕ, if_case, codes_start, codes_contain, Bool-cases, inl, inr, if◌then◌else◌,
}

abbrev pub printable : ℕ → Bool
printable c = leb 32 c && leb c 126

abbrev pub extend : ℕ → List (List ℕ) → List (List ℕ)
extend c [] = (c ∷ []) ∷ []
extend c (run ∷ runs) = (c ∷ run) ∷ runs

-- The runs of printable bytes between the other bytes, empty ones included.
runs_of : List ℕ → List (List ℕ)
runs_of [] = [] ∷ []
runs_of (c ∷ bytes) = let rest = runs_of bytes in if printable c then extend c rest else [] ∷ rest

unfoldable pub scan_binary_strings : List ℕ → List (List ℕ)
unfolding runs_of
scan_binary_strings bytes = filter (λ run. leb 6 (length run)) (runs_of bytes)

-- `"\n".join(strings)`
unfoldable pub all_text : List (List ℕ) → List ℕ
all_text [] = []
all_text (s ∷ []) = s
all_text (s ∷ t ∷ rest) = s ++ (10 ∷ all_text (t ∷ rest))

-- Whether a run contains the pattern.
abbrev pub holds : List ℕ → List (List ℕ) → Bool
holds p runs = any (λ run. codes_contain run p) runs

abbrev first_starts : List ℕ → List (List ℕ) → Bool
first_starts p [] = false
first_starts p (run ∷ runs) = codes_start run p

pub and_left : (a b : Bool) → (a && b) ≡ true → a ≡ true
and_left a b h = ground arith

pub and_right : (a b : Bool) → (a && b) ≡ true → b ≡ true
and_right a b h = ground arith

starts-contain : (s p : List ℕ) → codes_start s p ≡ true → codes_contain s p ≡ true
unfolding codes_contain
starts-contain [] p h = h
starts-contain (c ∷ s) p h = ground arith

extend-starts :
    (c d : ℕ) (p : List ℕ) (runs : List (List ℕ))
    → eq_ℕ c d ≡ true
    → first_starts p runs ≡ true
    → first_starts (d ∷ p) (extend c runs) ≡ true
unfolding codes_start
extend-starts c d p [] e h = cc
extend-starts c d p (run ∷ runs) e h = ground arith

extend-first : (c : ℕ) (runs : List (List ℕ)) → first_starts [] (extend c runs) ≡ true
unfolding codes_start
extend-first c [] = refl
extend-first c (run ∷ runs) = refl

runs_of-first : (bytes : List ℕ) → first_starts [] (runs_of bytes) ≡ true
unfolding runs_of codes_start
runs_of-first [] = refl
runs_of-first (c ∷ bytes) =
    if_case (λ runs. first_starts [] runs ≡ true) (printable c) (extend c (runs_of bytes))
      ([] ∷ runs_of bytes) (λ _. extend-first c (runs_of bytes)) (λ _. refl)

printable_same : (c d : ℕ) → eq_ℕ c d ≡ true → printable d ≡ true → printable c ≡ true
printable_same c d e h = ground arith

-- The first run starts with a printable pattern that the bytes start with.
runs_of-starts :
    (bytes p : List ℕ)
    → all printable p ≡ true
    → codes_start bytes p ≡ true
    → first_starts p (runs_of bytes) ≡ true
unfolding runs_of codes_start
runs_of-starts bytes [] ok h = runs_of-first bytes
runs_of-starts [] (d ∷ p) ok h = cc
runs_of-starts (c ∷ bytes) (d ∷ p) ok h =
    let same = and_left (eq_ℕ c d) (codes_start bytes p) h in
    let rest = and_right (eq_ℕ c d) (codes_start bytes p) h in
    if_case (λ runs. first_starts (d ∷ p) runs ≡ true) (printable c) (extend c (runs_of bytes))
      ([] ∷ runs_of bytes)
      (λ _.
        extend-starts c d p (runs_of bytes) same
          (runs_of-starts bytes p (and_right (printable d) (all printable p) ok) rest))
      (λ no. let yes = printable_same c d same (and_left (printable d) (all printable p) ok) in cc)

extend-holds :
    (c : ℕ) (p : List ℕ) (runs : List (List ℕ))
    → holds p runs ≡ true
    → holds p (extend c runs) ≡ true
unfolding codes_contain
extend-holds c p [] h = cc
extend-holds c p (run ∷ runs) h = ground arith

starts-holds :
    (p : List ℕ) (runs : List (List ℕ)) → first_starts p runs ≡ true → holds p runs ≡ true
starts-holds p [] h = cc
starts-holds p (run ∷ runs) h = let k = starts-contain run p h in ground arith

or_right : (a b : Bool) → a ≡ false → (a || b) ≡ true → b ≡ true
or_right a b h k = ground arith

later :
    (c : ℕ) (bytes p : List ℕ)
    → holds p (runs_of bytes) ≡ true
    → holds p (runs_of (c ∷ bytes)) ≡ true
unfolding runs_of
later c bytes p h =
    if_case (λ runs. holds p runs ≡ true) (printable c) (extend c (runs_of bytes))
      ([] ∷ runs_of bytes) (λ _. extend-holds c p (runs_of bytes) h) (λ _. ground arith)

-- A printable pattern that the bytes contain is in a run.
runs_of-holds :
    (bytes p : List ℕ)
    → all printable p ≡ true
    → codes_contain bytes p ≡ true
    → holds p (runs_of bytes) ≡ true
unfolding codes_contain
runs_of-holds [] p ok h = starts-holds p (runs_of []) (runs_of-starts [] p ok h)
runs_of-holds (c ∷ bytes) p ok h = elim (Bool-cases (codes_start (c ∷ bytes) p)) [
  | inl begins ↦ starts-holds p (runs_of (c ∷ bytes)) (runs_of-starts (c ∷ bytes) p ok begins)
  | inr not_here ↦ later c bytes p (
      runs_of-holds bytes p ok
        (or_right (codes_start (c ∷ bytes) p) (codes_contain bytes p) not_here h))
]

start-length : (s p : List ℕ) → codes_start s p ≡ true → length p ≤ length s
unfolding codes_start
start-length s [] h = omega arith
start-length [] (d ∷ p) h = ground arith
start-length (c ∷ s) (d ∷ p) h =
    omega (arith, start-length s p (and_right (eq_ℕ c d) (codes_start s p) h))

contain-length : (s p : List ℕ) → codes_contain s p ≡ true → length p ≤ length s
unfolding codes_contain
contain-length [] p h = start-length [] p h
contain-length (c ∷ s) p h = elim (Bool-cases (codes_start (c ∷ s) p)) [
  | inl begins ↦ start-length (c ∷ s) p begins
  | inr not_here ↦
      omega (
        arith,
        contain-length s p (or_right (codes_start (c ∷ s) p) (codes_contain s p) not_here h),
      )
]

filter-holds :
    (p : List ℕ) (runs : List (List ℕ))
    → 6 ≤ length p
    → holds p runs ≡ true
    → holds p (filter (λ run. leb 6 (length run)) runs) ≡ true
filter-holds p [] long h = cc
filter-holds p (run ∷ runs) long h = elim (Bool-cases (codes_contain run p)) [
  | inl here ↦ let enough = contain-length run p here in ground arith
  | inr not_here ↦
      let rest =
        filter-holds p runs long (or_right (codes_contain run p) (holds p runs) not_here h) in
      if_case (λ kept. holds p kept ≡ true) (leb 6 (length run))
        (run ∷ filter (λ r. leb 6 (length r)) runs) (filter (λ r. leb 6 (length r)) runs)
        (λ _. ground arith) (λ _. rest)
]

-- The bytes' strings hold a printable pattern of at least six bytes that the bytes contain.
pub scan_binary_strings-holds :
    (bytes p : List ℕ)
    → all printable p ≡ true
    → 6 ≤ length p
    → codes_contain bytes p ≡ true
    → holds p (scan_binary_strings bytes) ≡ true
unfolding scan_binary_strings
scan_binary_strings-holds bytes p ok long h =
    filter-holds p (runs_of bytes) long (runs_of-holds bytes p ok h)
