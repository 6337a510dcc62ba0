-- ===== src/Guardian/Uninstall/Scope.antt =====
-- `uninstall_guardian` file by file.
use mathlib.Core.List.{append_assoc, append-nil}
use bootmux.Base.{
  ◌≡◌, refl, ap, Bool, true, false, not, ◌&&◌, Option, none, some, List, [], ◌∷◌, ◌++◌, String,
  ◌==◌, eq_iff, filter, contains, arith, if◌then◌else◌,
}
use bootmux.Base.Dict.{get, keys, get-put}
use bootmux.Guardian.Store.{Store, File, is_dir}
use bootmux.Guardian.Uninstall.{
  Files, Progress, is_owned, unlink, move, uninstall_file, uninstall_files, uninstall_guardian,
}

abbrev pub or_else : Option File → Option File → Option File
or_else none other = other
or_else (some f) other = some f

get-unlink :
    (j name : String) (files : Files)
    → get j (unlink name files) ≡ (if name == j then none else get j files)
unfolding get
get-unlink j name [] = ground arith
get-unlink j name ((k, f) ∷ files) =
    ground (arith, eq_iff k name, eq_iff name j, eq_iff k j, get-unlink j name files)

get-move :
    (j name : String) (file : Option File) (evidence : Files)
    → get j (move file name evidence)
      ≡ (if name == j then or_else file (get j evidence) else get j evidence)
unfolding move
get-move j name none evidence = ground arith
get-move j name (some file) evidence = get-put j name file evidence

get-absent : (j : String) (files : Files) → contains j (keys files) ≡ false → get j files ≡ none
unfolding get
get-absent j [] h = refl
get-absent j ((k, f) ∷ files) h = ground (arith, get-absent j files)

same_owned : (j name : String) → (name == j) ≡ true → is_owned name ≡ is_owned j
same_owned j name h = ap is_owned ((eq_iff name j).0 h)

same_file : (j name : String) (files : Files) → (name == j) ≡ true → get name files ≡ get j files
same_file j name files h = ap (λ n. get n files) ((eq_iff name j).0 h)

-- What a round does to the file of one name.
file-files :
    (purge : Bool) (j name : String) (p : Progress)
    → get j (uninstall_file purge name p).files
      ≡ (if is_owned j && name == j then none else get j p.files)
unfolding uninstall_file
file-files purge j name p = ground (arith, get-unlink j name p.files, same_owned j name)

file-evidence :
    (purge : Bool) (j name : String) (p : Progress)
    → get j (uninstall_file purge name p).evidence ≡ (
        if not purge && is_owned j && name == j
        then or_else (get j p.files) (get j p.evidence)
        else get j p.evidence)
unfolding uninstall_file
file-evidence purge j name p = ground (
  arith,
  get-move j name (get name p.files) p.evidence,
  same_owned j name,
  same_file j name p.files,
)

files-files :
    (purge : Bool) (j : String) (names : List String) (p : Progress)
    → get j (uninstall_files purge names p).files
      ≡ (if is_owned j && contains j names then none else get j p.files)
unfolding uninstall_files
files-files purge j [] p = ground arith
files-files purge j (name ∷ names) p =
    let round = file-files purge j name p in
    let rest = files-files purge j names (uninstall_file purge name p) in ground arith

files-evidence :
    (purge : Bool) (j : String) (names : List String) (p : Progress)
    → get j (uninstall_files purge names p).evidence ≡ (
        if not purge && is_owned j && contains j names
        then or_else (get j p.files) (get j p.evidence)
        else get j p.evidence)
unfolding uninstall_files
files-evidence purge j [] p = ground arith
files-evidence purge j (name ∷ names) p =
    let files = file-files purge j name p in
    let evidence = file-evidence purge j name p in
    let rest = files-evidence purge j names (uninstall_file purge name p) in ground arith

-- The names that end up in one of the lists.
abbrev listed : Bool → List String → List String
listed here names = if here then filter is_owned names else []

listed-cons :
    (here : Bool) (name : String) (names : List String)
    → listed here (name ∷ []) ++ listed here names ≡ listed here (name ∷ names)
listed-cons here name names = ground arith

file-lists :
    (purge : Bool) (name : String) (p : Progress)
    → ((uninstall_file purge name p).removed ≡ p.removed ++ listed purge (name ∷ []))
      × ((uninstall_file purge name p).preserved ≡ p.preserved ++ listed (not purge) (name ∷ []))
unfolding uninstall_file
file-lists purge name p = ground (arith, append-nil p.removed, append-nil p.preserved)

files-lists :
    (purge : Bool) (names : List String) (p : Progress)
    → ((uninstall_files purge names p).removed ≡ p.removed ++ listed purge names)
      × ((uninstall_files purge names p).preserved ≡ p.preserved ++ listed (not purge) names)
unfolding uninstall_files
files-lists purge [] p = ground (arith, append-nil p.removed, append-nil p.preserved)
files-lists purge (name ∷ names) p =
    let (r, k) = files-lists purge names (uninstall_file purge name p) in
    let (r1, k1) = file-lists purge name p in
    (
      rw (← listed-cons purge name names, ← append_assoc, ← r1) r,
      rw (← listed-cons (not purge) name names, ← append_assoc, ← k1) k,
    )

-- Where the state directory is there, an uninstall takes its own files out of it, removed with purge and
-- otherwise moved to the evidence, where they replace what had their name; no other name's file changes
-- in either place; and the report lists the names of its own files in the order of the directory.
pub uninstall_guardian_lem :
    (purge : Bool) (st : Store) (evidence : Files) (j : String)
    → is_dir st.root_kind ≡ true
    → let (out, st', evidence') = uninstall_guardian purge st evidence in
      let owned = filter is_owned (keys st.files) in
      (get j st'.files ≡ (if is_owned j then none else get j st.files))
      × (get j evidence' ≡ (
          if not purge && is_owned j
          then or_else (get j st.files) (get j evidence)
          else get j evidence))
      × (out.removed ≡ (if purge then owned else []))
      × (out.preserved_evidence ≡ (if not purge then owned else []))
unfolding uninstall_guardian
uninstall_guardian_lem purge st evidence j there =
    let start : Progress = record {
      files = st.files;
      evidence = evidence;
      removed = [];
      preserved = [];
    } in
    let names = keys st.files in
    let absent = get-absent j st.files in
    let files = files-files purge j names start in
    let moved = files-evidence purge j names start in
    let (removed, preserved) = files-lists purge names start in
    rw there (ground arith, ground arith, removed, preserved)
