-- ===== src/Generator/Order.antt =====
-- The order of a generated manifest's artifacts.
use bootmux.Base.{
  ◌≡◌, ℕ, ◌≤◌, false, Option, none, some, List, [], ◌∷◌, ◌++◌, String, ◌<>◌, leb, leb→le, All,
  All-append, All-mono, arith, Option-cases, inl, inr, if_case,
}
use bootmux.Generator.{
  Tree, Generated, offset_value, insert_file, sort_files, alternative, located, artifacts_in,
  generate_from, generate_manifest,
}
use bootmux.Runner.Data.{Artifact}

abbrev File : Type 0
File = String × String

-- No offset lies below one before it.
abbrev Sorted : List File → Type 0
Sorted [] = Unit
Sorted (f ∷ files) = All (λ g. offset_value f.0 ≤ offset_value g.0) files × Sorted files

abbrev pub Ascending : List Artifact → Type 0
Ascending [] = Unit
Ascending (a ∷ rest) =
    All (λ b. offset_value a.offset ≤ offset_value b.offset) rest × Ascending rest

insert-All :
    (P : File → Type 0) (f : File) (files : List File)
    → P f
    → All P files
    → All P (insert_file f files)
unfolding insert_file
insert-All P f [] h hs = (h, tt)
insert-All P f (g ∷ files) h (k, ks) =
    if_case (λ fs. All P fs) (leb (offset_value f.0) (offset_value g.0)) (f ∷ g ∷ files)
      (g ∷ insert_file f files) (λ _. (h, (k, ks))) (λ _. (k, insert-All P f files h ks))

not_leb : (a b : ℕ) → leb a b ≡ false → b ≤ a
not_leb a b h = ground arith

insert-Sorted : (f : File) (files : List File) → Sorted files → Sorted (insert_file f files)
unfolding insert_file
insert-Sorted f [] h = (tt, tt)
insert-Sorted f (g ∷ files) (h, hs) =
    if_case Sorted (leb (offset_value f.0) (offset_value g.0)) (f ∷ g ∷ files)
      (g ∷ insert_file f files)
      (λ low.
        let below = leb→le (offset_value f.0) (offset_value g.0) low in
        (
          (
            below,
            All-mono (λ x. offset_value g.0 ≤ offset_value x.0) _ files
                (λ x above. omega (arith, below, above)) h,
          ),
          (h, hs),
        ))
      (λ high.
        let above = not_leb (offset_value f.0) (offset_value g.0) high in
        (
          insert-All (λ x. offset_value g.0 ≤ offset_value x.0) f files above h,
          insert-Sorted f files hs,
        ))

sort-Sorted : (files : List File) → Sorted (sort_files files)
unfolding sort_files
sort-Sorted [] = tt
sort-Sorted (f ∷ files) = insert-Sorted f (sort_files files) (sort-Sorted files)

-- A located artifact has its file's offset.
alternative-offset :
    (P : String → Type 0) (t : Tree) (offset rel_path : String) (found : Option (List ℕ))
    → P offset
    → All (λ a. P a.offset) (alternative t offset rel_path found)
unfolding alternative
alternative-offset P t offset rel_path none h = tt
alternative-offset P t offset rel_path (some bytes) h = (h, tt)

located-offset :
    (P : String → Type 0) (t : Tree) (offset rel_path : String) (found : Option (List ℕ))
    → P offset
    → All (λ a. P a.offset) (located t offset rel_path found)
unfolding located
located-offset P t offset rel_path none h =
    alternative-offset P t offset rel_path (t.read_bytes rel_path) h
located-offset P t offset rel_path (some bytes) h = (h, tt)

artifacts-offset :
    (P : String → Type 0) (t : Tree) (files : List File)
    → All (λ f. P f.0) files
    → All (λ a. P a.offset) (artifacts_in t files)
unfolding artifacts_in
artifacts-offset P t [] h = tt
artifacts-offset P t ((offset, rel_path) ∷ files) (h, hs) =
    All-append (λ a. P a.offset)
      (located t offset rel_path (t.read_bytes (t.build_dir <> "/" <> rel_path)))
      (artifacts_in t files)
      (located-offset P t offset rel_path (t.read_bytes (t.build_dir <> "/" <> rel_path)) h)
      (artifacts-offset P t files hs)

-- At most one artifact comes of a file.
alternative-Ascending :
    (t : Tree) (offset rel_path : String) (found : Option (List ℕ)) (rest : List Artifact)
    → All (λ b. offset_value offset ≤ offset_value b.offset) rest
    → Ascending rest
    → Ascending (alternative t offset rel_path found ++ rest)
unfolding alternative
alternative-Ascending t offset rel_path none rest h k = k
alternative-Ascending t offset rel_path (some bytes) rest h k = (h, k)

located-Ascending :
    (t : Tree) (offset rel_path : String) (found : Option (List ℕ)) (rest : List Artifact)
    → All (λ b. offset_value offset ≤ offset_value b.offset) rest
    → Ascending rest
    → Ascending (located t offset rel_path found ++ rest)
unfolding located
located-Ascending t offset rel_path none rest h k =
    alternative-Ascending t offset rel_path (t.read_bytes rel_path) rest h k
located-Ascending t offset rel_path (some bytes) rest h k = (h, k)

artifacts-Ascending :
    (t : Tree) (files : List File) → Sorted files → Ascending (artifacts_in t files)
unfolding artifacts_in
artifacts-Ascending t [] h = tt
artifacts-Ascending t ((offset, rel_path) ∷ files) (h, hs) =
    located-Ascending t offset rel_path (t.read_bytes (t.build_dir <> "/" <> rel_path))
      (artifacts_in t files)
      (artifacts-offset (λ o. offset_value offset ≤ offset_value o) t files h)
      (artifacts-Ascending t files hs)

-- The artifacts of a generated manifest stand in the order of their offsets.
pub generate_manifest-Ascending :
    (t : Tree) (g : Generated) → generate_manifest t ≡ some g → Ascending g.manifest.artifacts
unfolding generate_manifest generate_from
generate_manifest-Ascending t g made = elim (Option-cases t.flasher_args) [
  | inl missing ↦ cc (rw (missing, generate_manifest) at made)
  | inr (flasher, there) ↦
      let e : generate_from t flasher ≡ g = cc (rw (there, generate_manifest) at made) in
      rw (← e)
        (artifacts-Ascending t (sort_files flasher.flash_files) (sort-Sorted flasher.flash_files))
]
