-- ===== src/Guardian/Uninstall.antt =====
-- scripts/macos/bootmux-network-guardian.py, `uninstall_guardian`. The name `evidence` is free in the
-- state directory, or is a directory there; no removal and no move fails.
pub mod Scope
use bootmux.Base.{
  ◌≡◌, refl, ◌∙◌, ap, Bool, true, false, not, ◌&&◌, ◌||◌, Option, none, some, List, [], ◌∷◌, ◌++◌,
  map, String, ◌==◌, eq_iff, filter, contains, arith, Bool-cases, inl, inr, if◌then◌else◌,
}
use bootmux.Base.Dict.{get, put, keys, get-put}
use bootmux.Guardian.Store.{Store, File, state_baseline, state_previous, is_dir}

abbrev state_runtime : String
state_runtime = "runtime.json"

abbrev pub guardian_owned_files : List String
guardian_owned_files = state_baseline ∷ state_previous ∷ state_runtime ∷ []

unfoldable pub is_owned : String → Bool
is_owned name = contains name guardian_owned_files

abbrev pub Files : Type 0
Files = List (String × File)

pub record Outcome : Type 0 where
  pub removed : List String
  pub preserved_evidence : List String
  pub purge : Bool

-- `os.unlink`
abbrev pub unlink : String → Files → Files
unlink name files = filter (λ f. not (f.0 == name)) files

-- `os.replace(src, os.path.join(evidence_dir, name))`, on the evidence.
unfoldable pub move : Option File → String → Files → Files
unfolding put
move none name evidence = evidence
move (some file) name evidence = put name file evidence

-- What the loop changes: the files, the evidence, and both lists of names.
pub record Progress : Type 0 where
  pub files : Files
  pub evidence : Files
  pub removed : List String
  pub preserved : List String

-- One round of the loop.
unfoldable pub uninstall_file : Bool → String → Progress → Progress
unfolding move get
uninstall_file purge name p =
    if is_owned name
    then if purge
      then record p { files = unlink name p.files; removed = p.removed ++ (name ∷ []) }
      else record p {
        files = unlink name p.files;
        evidence = move (get name p.files) name p.evidence;
        preserved = p.preserved ++ (name ∷ []);
      }
    else p

-- The loop over `os.listdir(store.root)`.
unfoldable pub uninstall_files : Bool → List String → Progress → Progress
unfolding uninstall_file
uninstall_files purge [] p = p
uninstall_files purge (name ∷ names) p = uninstall_files purge names (uninstall_file purge name p)

-- The outcome, the store and the evidence as they are left.
unfoldable pub uninstall_guardian : Bool → Store → Files → Outcome × Store × Files
unfolding uninstall_files
uninstall_guardian purge st evidence =
    let start : Progress = record {
      files = st.files;
      evidence = evidence;
      removed = [];
      preserved = [];
    } in
    let p : Progress =
      if is_dir st.root_kind then uninstall_files purge (keys st.files) start else start in
    (
      record { removed = p.removed; preserved_evidence = p.preserved; purge = purge },
      record st { files = p.files },
      p.evidence,
    )
