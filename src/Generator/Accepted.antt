-- ===== src/Generator/Accepted.antt =====
-- A generated manifest before the inspector and the runner's gate.
use bootmux.Base.{
  ◌≡◌, refl, ◌∙◌, ℕ, Bool, true, Option, none, some, List, [], ◌∷◌, String, ◌<>◌, ◌==◌, eq_ℕ,
  length, is_empty, All, All-append, All-mono, arith, codes, is_text_self, Option-cases, inl, inr,
}
use bootmux.Generator.{
  Tree, Generated, alternative, located, artifacts_in, generate_manifest, generate_from, sort_files,
}
use bootmux.Inspector
use bootmux.Inspector.{ArtifactResult, inspect_artifact, inspect_bytes, inspected, forbidden_found}
use bootmux.Inspector.Scan.{scan_binary_strings}
use bootmux.Runner.Data.{Artifact, Bench}
use bootmux.Runner.Steps.{first_mismatch}

-- The build as the inspector reads it, and the entry of an artifact.
abbrev pub contents : Option String → Option (List ℕ)
contents none = none
contents (some s) = some (codes s)

abbrev pub build_of : Tree → Inspector.Build
build_of t = record {
  sdkconfig = contents t.sdkconfig;
  read_bytes = t.read_bytes;
  sha256_file = t.sha256_file;
}

abbrev pub entry_of : Artifact → Inspector.Artifact
entry_of a = record { name = a.name; path = a.path; size = a.size; sha256 = a.sha256 }

-- The file of an artifact is there, with its size and its hash.
abbrev Faithful : Tree → Artifact → Type 0
Faithful t a =
    (bytes : List ℕ) × (t.read_bytes a.path ≡ some bytes)
    × (a.size ≡ length bytes)
    × (a.sha256 ≡ t.sha256_file bytes)

alternative-Faithful :
    (t : Tree) (offset rel_path : String) (found : Option (List ℕ))
    → t.read_bytes rel_path ≡ found
    → All (Faithful t) (alternative t offset rel_path found)
unfolding alternative
alternative-Faithful t offset rel_path none h = tt
alternative-Faithful t offset rel_path (some bytes) h = ((bytes, h, refl, refl), tt)

located-Faithful :
    (t : Tree) (offset rel_path : String) (found : Option (List ℕ))
    → t.read_bytes (t.build_dir <> "/" <> rel_path) ≡ found
    → All (Faithful t) (located t offset rel_path found)
unfolding located
located-Faithful t offset rel_path none h =
    alternative-Faithful t offset rel_path (t.read_bytes rel_path) refl
located-Faithful t offset rel_path (some bytes) h = ((bytes, h, refl, refl), tt)

artifacts-Faithful :
    (t : Tree) (files : List (String × String)) → All (Faithful t) (artifacts_in t files)
unfolding artifacts_in
artifacts-Faithful t [] = tt
artifacts-Faithful t ((offset, rel_path) ∷ files) =
    All-append (Faithful t)
      (located t offset rel_path (t.read_bytes (t.build_dir <> "/" <> rel_path)))
      (artifacts_in t files)
      (located-Faithful t offset rel_path (t.read_bytes (t.build_dir <> "/" <> rel_path)) refl)
      (artifacts-Faithful t files)

-- The inspector finds the artifact with its size and hash; what is left to it are the forbidden strings.
abbrev pub Inspected : Tree → Artifact → Type 0
Inspected t a =
    (bytes : List ℕ) × (t.read_bytes a.path ≡ some bytes)
    × (inspect_artifact (build_of t) (entry_of a)
        ≡ inspected true true (is_empty (forbidden_found (scan_binary_strings bytes))))

number_self : (n : ℕ) → eq_ℕ n n ≡ true
number_self n = ground arith

inspected_same :
    (n : ℕ) (h : String) (clean : Bool)
    → inspected (eq_ℕ n n) (h == h) clean ≡ inspected true true clean
inspected_same n h clean = rw (number_self n, is_text_self h) refl

Faithful-Inspected : (t : Tree) (a : Artifact) → Faithful t a → Inspected t a
unfolding inspect_artifact inspect_bytes
Faithful-Inspected t a (bytes, there, size, hash) = (
  bytes,
  there,
  rw (there, size, hash, inspect_artifact, inspect_bytes)
      (inspected_same (length bytes) (t.sha256_file bytes) _),
)

-- `sha256_file` of what stands at a path.
abbrev pub hash_at : Tree → String → Option String
hash_at t path = elim (t.read_bytes path) [ none ↦ none | some bytes ↦ some (t.sha256_file bytes) ]

Faithful-mismatch :
    (t : Tree) (bench : Bench) (firmware : String) (s : bench.State) (artifacts : List Artifact)
    → ((path : String) → bench.sha_of (firmware <> "/" <> path) s ≡ hash_at t path)
    → All (Faithful t) artifacts
    → first_mismatch bench firmware artifacts s ≡ none
unfolding first_mismatch
Faithful-mismatch t bench firmware s [] same h = refl
Faithful-mismatch t bench firmware s (a ∷ artifacts) same ((bytes, there, size, hash), hs) =
    let sha : bench.sha_of (firmware <> "/" <> a.path) s ≡ some (t.sha256_file bytes) =
      same a.path ∙ rw (hash_at, there) refl in
    let equal : (t.sha256_file bytes == a.sha256) ≡ true =
      rw hash (is_text_self (t.sha256_file bytes)) in
    rw (first_mismatch, sha, equal) (Faithful-mismatch t bench firmware s artifacts same hs)

generated-Faithful :
    (t : Tree) (g : Generated)
    → generate_manifest t ≡ some g
    → All (Faithful t) g.manifest.artifacts
unfolding generate_manifest generate_from
generated-Faithful t g made = elim (Option-cases t.flasher_args) [
  | inl missing ↦ cc (rw (missing, generate_manifest) at made)
  | inr (flasher, there) ↦
      let e : generate_from t flasher ≡ g = cc (rw (there, generate_manifest) at made) in
      rw (← e) (artifacts-Faithful t (sort_files flasher.flash_files))
]

-- Every artifact of a generated manifest is there for the inspector with its size and hash, so that only the
-- forbidden strings can keep it from being GREEN; and where the firmware directory of the runner has the same
-- files, the hashes of the runner's gate are all met.
pub generate_manifest-accepted :
    (t : Tree) (g : Generated) (bench : Bench) (firmware : String) (s : bench.State)
    → generate_manifest t ≡ some g
    → ((path : String) → bench.sha_of (firmware <> "/" <> path) s ≡ hash_at t path)
    → All (Inspected t) g.manifest.artifacts
      × (first_mismatch bench firmware g.manifest.artifacts s ≡ none)
generate_manifest-accepted t g bench firmware s made same =
    let faithful = generated-Faithful t g made in
    (
      All-mono (Faithful t) (Inspected t) g.manifest.artifacts (Faithful-Inspected t) faithful,
      Faithful-mismatch t bench firmware s g.manifest.artifacts same faithful,
    )
