-- ===== src/Inspector/Sound.antt =====
-- What a GREEN verdict of the inspector says of the binaries.
use bootmux.Base.{
  ◌≡◌, refl, ℕ, Bool, true, false, Option, none, some, List, [], ◌∷◌, filter, any, all, length,
  is_empty, All, all-All, All-mono, String, eq_iff, eq_ℕ, leb, leb→le, if_case, codes,
  codes_contain, arith, Bool-cases, inl, inr,
}
use bootmux.Inspector.{
  forbidden_patterns, Artifact, Manifest, Build, forbidden_found, inspect_bytes, inspect_artifact,
  is_green, marker_in, inspect_build,
}
use bootmux.Inspector.Scan.{
  printable, holds, and_left, and_right, scan_binary_strings, scan_binary_strings-holds,
}

-- The forbidden patterns that the scan can see.
abbrev pub long_patterns : List String
long_patterns = filter (λ p. leb 6 (length (codes p))) forbidden_patterns

abbrev pub Free : List ℕ → Type 0
Free bytes = All (λ p. codes_contain bytes (codes p) ≡ false) long_patterns

All-zip :
    {A : Type 0} (P Q R : A → Type 0) (xs : List A)
    → ((x : A) → P x → Q x → R x)
    → All P xs
    → All Q xs
    → All R xs
All-zip P Q R [] f h k = tt
All-zip P Q R (x ∷ xs) f (h, hs) (k, ks) = (f x h k, All-zip P Q R xs f hs ks)

All-filter :
    {A : Type 0} (test : A → Bool) (P : A → Type 0) (xs : List A)
    → All (λ x. test x ≡ true → P x) xs
    → All P (filter test xs)
All-filter test P [] h = tt
All-filter test P (x ∷ xs) (h, hs) =
    if_case (λ ys. All P ys) (test x) (x ∷ filter test xs) (filter test xs)
      (λ pass. (h pass, All-filter test P xs hs)) (λ _. All-filter test P xs hs)

any-All :
    {A : Type 0} (test : A → Bool) (xs : List A)
    → any test xs ≡ false
    → All (λ x. test x ≡ false) xs
any-All test [] h = tt
any-All test (x ∷ xs) h = (ground arith, any-All test xs (ground arith))

All-trivial : {A : Type 0} (xs : List A) → All (λ x. ◌≡◌ {A = Bool} false false) xs
All-trivial [] = tt
All-trivial (x ∷ xs) = (refl, All-trivial xs)

abbrev found : List String → List (List ℕ) → List (List ℕ)
found ps strings = filter (λ s. any (λ p. codes_contain s (codes p)) ps) strings

caught_ne :
    (ps : List String) (s : List ℕ) (strings : List (List ℕ))
    → any (λ p. codes_contain s (codes p)) ps ≡ true
    → is_empty (found ps (s ∷ strings)) ≡ true
    → ⊥
caught_ne ps s strings caught h = ground arith

rest_none :
    (ps : List String) (s : List ℕ) (strings : List (List ℕ))
    → any (λ p. codes_contain s (codes p)) ps ≡ false
    → is_empty (found ps (s ∷ strings)) ≡ true
    → is_empty (found ps strings) ≡ true
rest_none ps s strings clean h = ground arith

eq_ℕ-eq : (a b : ℕ) → eq_ℕ a b ≡ true → a ≡ b
eq_ℕ-eq a b h = ground arith

unseen :
    (bytes p : List ℕ)
    → holds p (scan_binary_strings bytes) ≡ false
    → all printable p ≡ true
    → leb 6 (length p) ≡ true
    → codes_contain bytes p ≡ false
unseen bytes p clean ok long = elim (Bool-cases (codes_contain bytes p)) [
  | inl there ↦
      let caught = scan_binary_strings-holds bytes p ok (leb→le 6 (length p) long) there in cc
  | inr gone ↦ gone
]

-- Where nothing is found, no string holds a pattern.
found-none :
    (ps : List String) (strings : List (List ℕ))
    → is_empty (found ps strings) ≡ true
    → All (λ p. holds (codes p) strings ≡ false) ps
found-none ps [] h = All-trivial ps
found-none ps (s ∷ strings) h = elim (Bool-cases (any (λ p. codes_contain s (codes p)) ps)) [
  | inl caught ↦ let bad = caught_ne ps s strings caught h in elim bad [ ]
  | inr clean ↦
      All-zip (λ p. codes_contain s (codes p) ≡ false) (λ p. holds (codes p) strings ≡ false)
        (λ p. holds (codes p) (s ∷ strings) ≡ false) ps (λ p a b. ground arith)
        (any-All (λ p. codes_contain s (codes p)) ps clean)
        (found-none ps strings (rest_none ps s strings clean h))
]

-- Binaries in whose strings nothing forbidden is found are free of the long patterns.
forbidden_found-Free :
    (bytes : List ℕ) → is_empty (forbidden_found (scan_binary_strings bytes)) ≡ true → Free bytes
unfolding forbidden_found
forbidden_found-Free bytes h =
    All-filter (λ p. leb 6 (length (codes p))) (λ p. codes_contain bytes (codes p) ≡ false)
      forbidden_patterns
      (All-zip (λ p. holds (codes p) (scan_binary_strings bytes) ≡ false)
        (λ p. all printable (codes p) ≡ true)
        (λ p. leb 6 (length (codes p)) ≡ true → codes_contain bytes (codes p) ≡ false)
        forbidden_patterns (λ p clean ok long. unseen bytes (codes p) clean ok long)
        (found-none forbidden_patterns (scan_binary_strings bytes) h)
        (all-All (λ p. all printable (codes p)) forbidden_patterns refl))

-- The file of an artifact is there with the size and the hash of the manifest, free of the patterns.
abbrev pub Sound : Build → Artifact → Type 0
Sound build e =
    (bytes : List ℕ) × (build.read_bytes e.path ≡ some bytes)
    × (length bytes ≡ e.size)
    × (build.sha256_file bytes ≡ e.sha256)
    × Free bytes

inspect_bytes-Sound :
    (build : Build) (e : Artifact) (o : Option (List ℕ))
    → build.read_bytes e.path ≡ o
    → is_green (inspect_bytes build e o) ≡ true
    → Sound build e
unfolding inspect_bytes
inspect_bytes-Sound build e none h green = cc
inspect_bytes-Sound build e (some bytes) h green =
    let first = and_left _ _ green in
    (
      bytes,
      h,
      eq_ℕ-eq (length bytes) e.size (and_left _ _ first),
      (eq_iff (build.sha256_file bytes) e.sha256).0 (and_right _ _ first),
      forbidden_found-Free bytes (and_right _ _ green),
    )

inspect_artifact-Sound :
    (build : Build) (e : Artifact) → is_green (inspect_artifact build e) ≡ true → Sound build e
unfolding inspect_artifact
inspect_artifact-Sound build e green =
    inspect_bytes-Sound build e (build.read_bytes e.path) refl green

-- Where the verdict of inspect_build is GREEN, every artifact of the manifest is there with the
-- manifest's size and hash, none of the forbidden patterns of six characters or more stands anywhere
-- in its bytes, and the configuration contains the manifest's marker.
pub inspect_build-green :
    (build : Build) (m : Manifest)
    → inspect_build build m ≡ true
    → All (Sound build) m.artifacts × (marker_in m.sdkconfig_marker build.sdkconfig ≡ true)
unfolding inspect_build
inspect_build-green build m h =
    let three = and_left _ _ h in
    let two = and_left _ _ three in
    (
      All-mono _ (Sound build) m.artifacts (inspect_artifact-Sound build)
          (all-All (λ e. is_green (inspect_artifact build e)) m.artifacts (and_left _ _ two)),
      and_right _ _ two,
    )
