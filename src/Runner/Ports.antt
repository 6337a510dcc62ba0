-- ===== src/Runner/Ports.antt =====
-- scripts/macos/bootmux-safe-flash-runner.py: `is_rejected_device` and `detect_new_port`. A port's
-- name is one line of text.
pub mod Detect
use bootmux.Base.{
  ◌+◌, ◌≤◌, ℕ, Bool, true, false, not, ◌&&◌, ◌||◌, Option, none, some, List, [], ◌∷◌, String, ◌<>◌,
  any, filter, contains, is_empty, codes, codes_contain, codes_start, lower, leb, length, show_ℕ,
  join, if◌then◌else◌, map,
}

-- `re.search("word", port, re.IGNORECASE)` for a plain word.
abbrev mentions : String → List ℕ → Bool
mentions word port = codes_contain port (lower word)

-- `word[0-9]`
mentions_numbered : String → List ℕ → Bool
mentions_numbered word [] = false
mentions_numbered word (c ∷ port) =
    let rest = mentions_numbered word port in
    any (λ d. codes_start (c ∷ port) (lower (word <> d)))
      ("0" ∷ "1" ∷ "2" ∷ "3" ∷ "4" ∷ "5" ∷ "6" ∷ "7" ∷ "8" ∷ "9" ∷ [])
    || rest

drop_codes : List ℕ → List ℕ → List ℕ
drop_codes [] port = port
drop_codes (x ∷ xs) [] = []
drop_codes (x ∷ xs) (y ∷ ys) = drop_codes xs ys

-- `first.*second`
mentions_both : String → String → List ℕ → Bool
unfolding drop_codes
mentions_both first second [] = false
mentions_both first second (c ∷ port) =
    let rest = mentions_both first second port in
    (codes_start (c ∷ port) (lower first) && mentions second (drop_codes (lower first) (c ∷ port)))
    || rest

phones : List String
phones = "iPhone" ∷ "iPad" ∷ "Android" ∷ "Samsung" ∷ "Pixel" ∷ "Xiaomi" ∷ []

-- REJECT_PATTERNS, each with its text.
reject_patterns : List (String × (List ℕ → Bool))
unfolding phones mentions_numbered mentions_both lower codes_contain codes_start
reject_patterns =
    ("Bluetooth", mentions "Bluetooth")
    ∷ ("iPhone|iPad|Android|Samsung|Pixel|Xiaomi", λ port. any (λ word. mentions word port) phones)
    ∷ ("disk[0-9]", mentions_numbered "disk")
    ∷ (
      "BOOTMUX.*Bridge|BOOTMUX.*NCM|BOOTMUX.*ECM",
      λ port.
          mentions_both "BOOTMUX" "Bridge" port
          || mentions_both "BOOTMUX" "NCM" port
          || mentions_both "BOOTMUX" "ECM" port,
    )
    ∷ ("en[0-9]", mentions_numbered "en")
    ∷ ("bridge[0-9]", mentions_numbered "bridge")
    ∷ []

first_match : List ℕ → List (String × (List ℕ → Bool)) → Option String
first_match port [] = none
first_match port ((pattern, matches) ∷ patterns) =
    let rest = first_match port patterns in if matches port then some pattern else rest

-- `is_rejected_device`: the reason, where the port is rejected.
unfoldable pub is_rejected_device : String → Option String
unfolding first_match reject_patterns
is_rejected_device port = elim (first_match (lower port) reject_patterns) [
  | none ↦ none
  | some pattern ↦ some ("matches reject pattern: " <> pattern)
]

abbrev pub is_allowed : Option String → Bool
is_allowed none = true
is_allowed (some reason) = false

-- The loop over the new ports: the candidates and the rejected ones, in order.
sort_out : List String → List String × List (String × String)
sort_out [] = ([], [])
sort_out (p ∷ ports) =
    let (candidates, rejected) = sort_out ports in
    elim (is_rejected_device p) [
      | none ↦ (p ∷ candidates, rejected)
      | some reason ↦ (candidates, (p, reason) ∷ rejected)
    ]

-- The reasons of `detect_new_port`, with what they show.
pub data Detection : Type 0 where
  rejected_all : List (String × String) → Detection
  no_new_port : Detection
  ambiguous : List String → Detection
  single_candidate : Detection

decide_port : List String → List (String × String) → Option String × Detection
decide_port [] [] = (none, no_new_port)
decide_port [] (r ∷ rejected) = (none, rejected_all (r ∷ rejected))
decide_port (p ∷ []) rejected = (some p, single_candidate)
decide_port (p ∷ q ∷ ports) rejected = (none, ambiguous (p ∷ q ∷ ports))

unfoldable pub detect_new_port : List String → List String → Option String × Detection
unfolding sort_out decide_port
detect_new_port before after =
    let (candidates, rejected) = sort_out (filter (λ p. not (contains p before)) after) in
    decide_port candidates rejected

-- The text of a reason; a list is shown by its members.
unfoldable pub show_detection : Detection → String
show_detection (rejected_all rejected) =
    "REJECTED: all new ports rejected: " <> join ", " (map (λ r. r.0) rejected)
show_detection no_new_port = "NO_NEW_PORT: no new serial device detected"
show_detection (ambiguous ports) =
    "AMBIGUOUS: " <> show_ℕ (length ports) <> " candidates: " <> join ", " ports
show_detection single_candidate = "SINGLE_CANDIDATE"
