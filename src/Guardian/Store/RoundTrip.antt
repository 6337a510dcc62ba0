-- ===== src/Guardian/Store/RoundTrip.antt =====
-- What `atomic_write` and `write_baseline` leave in the store, as `load` and `read_baseline` see it.
use bootmux.Base.{
  ◌≡◌, refl, ◌∙◌, Bool, true, false, not, ◌&&◌, Option, none, some, List, [], ◌∷◌, String, ◌==◌,
  eq_iff, eq_ℕ, arith, inl, inr, if◌then◌else◌,
}
use bootmux.Base.Dict.{get, get-sort_keys}
use bootmux.Guardian.Data.{Baseline}
use bootmux.Guardian.Store.{
  Document, File, Store, ok, dumped, dumped_document, state_baseline, state_previous, lookup_file,
  put_file, as_document, Result-cases, written_file, replace_file, atomic_write, ensure_dir,
  validate_file, load, load_file, read_content, read_baseline, as_document, write_baseline, retain,
  write_after, is_dir,
}

lookup_file-put_file :
    (j k : String) (f : File) (files : List (String × File))
    → lookup_file j (put_file k f files) ≡ (if k == j then some f else lookup_file j files)
unfolding lookup_file put_file
lookup_file-put_file j k f [] = refl
lookup_file-put_file j k f ((n, g) ∷ files) =
    ground (arith, eq_iff k j, eq_iff n k, eq_iff n j, lookup_file-put_file j k f files)

-- The process may own what it makes: as root, or where owners are not enforced.
abbrev pub Owns : Store → Type 0
Owns st = (st.enforce_owner && not (eq_ℕ st.euid 0)) ≡ false

-- What `ensure_dir` returns, where it does not raise.
record Ensured (st st' : Store) : Type 0 where
  dir : is_dir st'.root_kind ≡ true
  same_euid : st'.euid ≡ st.euid
  same_enforce : st'.enforce_owner ≡ st.enforce_owner
  same_files : is_dir st.root_kind ≡ true → st'.files ≡ st.files

ensure_dir-Ensured : (st : Store) {st' : Store} → ensure_dir st ≡ ok st' → Ensured st st'
unfolding ensure_dir
ensure_dir-Ensured st h = record {
  dir = ground arith;
  same_euid = ground arith;
  same_enforce = ground arith;
  same_files = λ d. ground arith;
}

replace_file-written :
    (name : String) (d : Document) (st : Store)
    → (replace_file name d st).0 ≡ ok tt
    → (replace_file name d st).1
      ≡ record st { files = put_file name (written_file st.euid d) st.files }
unfolding replace_file
replace_file-written name d st h = ground arith

atomic_write-written :
    (name : String) (d : Document) (st : Store)
    → (atomic_write name d st).0 ≡ ok tt
    → (st' : Store) × Ensured st st'
      × ((atomic_write name d st).1
          ≡ record st' { files = put_file name (written_file st'.euid d) st'.files })
unfolding atomic_write
atomic_write-written name d st h = elim (Result-cases (ensure_dir st)) [
  | inl (st', e) ↦ (st', ensure_dir-Ensured st e, ground (arith, replace_file-written name d st'))
  | inr (r, e) ↦ cc (rw (e, atomic_write) at h)
]

load-put :
    (name : String) (d : Document) (st : Store)
    → is_dir st.root_kind ≡ true
    → Owns st
    → load (record st { files = put_file name (written_file st.euid d) st.files }) name
      ≡ ok (some (dumped_document d))
unfolding load load_file validate_file read_content
load-put name d st dir own =
    ground
      (arith, eq_iff name name, lookup_file-put_file name name (written_file st.euid d) st.files)

load-put_other :
    (name other : String) (f : File) (st : Store)
    → (name == other) ≡ false
    → load (record st { files = put_file name f st.files }) other ≡ load st other
unfolding load load_file validate_file
load-put_other name other f st ne = ground (arith, lookup_file-put_file other name f st.files)

load-Ensured :
    (st st' : Store) (name : String)
    → Ensured st st'
    → is_dir st.root_kind ≡ true
    → load st' name ≡ load st name
unfolding load load_file validate_file
load-Ensured st st' name h dir = ground (arith, h.same_files dir)

Owns-Ensured : (st st' : Store) → Ensured st st' → Owns st → Owns st'
Owns-Ensured st st' h own = ground arith

-- What atomic_write reports as written, `load` reads back, with the keys in order, whatever the store
-- was like.
pub load-atomic_write :
    (name : String) (d : Document) (st : Store)
    → Owns st
    → (atomic_write name d st).0 ≡ ok tt
    → load (atomic_write name d st).1 name ≡ ok (some (dumped_document d))
load-atomic_write name d st own h =
    let (st', ensured, e) = atomic_write-written name d st h in
    rw e (load-put name d st' ensured.dir (Owns-Ensured st st' ensured own))

-- atomic_write changes no file but the one it names.
pub load-atomic_write_other :
    (name other : String) (d : Document) (st : Store)
    → (name == other) ≡ false
    → is_dir st.root_kind ≡ true
    → (atomic_write name d st).0 ≡ ok tt
    → load (atomic_write name d st).1 other ≡ load st other
load-atomic_write_other name other d st ne dir h =
    let (st', ensured, e) = atomic_write-written name d st h in
    rw e (load-put_other name other _ st' ne ∙ load-Ensured st st' other ensured dir)

Owns-atomic_write :
    (name : String) (d : Document) (st : Store)
    → Owns st
    → (atomic_write name d st).0 ≡ ok tt
    → Owns (atomic_write name d st).1
Owns-atomic_write name d st own h =
    let (st', ensured, e) = atomic_write-written name d st h in
    rw e (Owns-Ensured st st' ensured own)

-- Two baselines that differ in the order of the services' states at most.
pub record Alike (b b' : Baseline) : Type 0 where
  pub rest : b' ≡ record b {
    network = record b.network { service_enabled_states = b'.network.service_enabled_states };
  }
  pub states :
      (service : String)
      → get service b'.network.service_enabled_states ≡ get service b.network.service_enabled_states

-- The store has this baseline, up to that order.
abbrev pub Holds : Store → Baseline → Type 0
Holds st b = (b' : Baseline) × (read_baseline st ≡ ok (some b')) × Alike b b'

read_baseline-load :
    (st : Store) (b : Baseline)
    → load st state_baseline ≡ ok (some (dumped_document (as_document b)))
    → Holds st b
unfolding read_baseline
read_baseline-load st b h = (
  dumped b,
  rw h refl,
  record { rest = refl; states = λ k. get-sort_keys k b.network.service_enabled_states },
)

retain-Owns :
    (rp : Bool) (old : Option Document) (st : Store)
    → Owns st
    → (retain rp old st).0 ≡ ok tt
    → Owns (retain rp old st).1
unfolding retain
retain-Owns rp none st own h = own
retain-Owns true (some old) st own h = Owns-atomic_write state_previous old st own h
retain-Owns false (some old) st own h = own

-- The parts of a write_baseline that succeeds.
write_baseline-parts :
    (b : Baseline) (rp : Bool) (st : Store)
    → (write_baseline b rp st).0 ≡ ok tt
    → (old : Option Document) × (load st state_baseline ≡ ok old)
      × ((retain rp old st).0 ≡ ok tt)
      × ((atomic_write state_baseline (as_document b) (retain rp old st).1).0 ≡ ok tt)
      × ((write_baseline b rp st).1
          ≡ (atomic_write state_baseline (as_document b) (retain rp old st).1).1)
unfolding write_baseline write_after
write_baseline-parts b rp st h = elim (Result-cases (load st state_baseline)) [
  | inl (old, e) ↦ (old, e, ground arith, ground arith, ground arith)
  | inr (r, e) ↦ cc (rw (e, write_baseline) at h)
]

-- After a write_baseline that succeeds, in a store whose process may own what it makes, read_baseline
-- gives a baseline with the fields of the one written and the same state for each service; only the
-- order in which the services' states stand may be another.
pub read_baseline-write_baseline :
    (b : Baseline) (rp : Bool) (st : Store)
    → Owns st
    → (write_baseline b rp st).0 ≡ ok tt
    → Holds (write_baseline b rp st).1 b
read_baseline-write_baseline b rp st own h =
    let (old, found, kept, written, e) = write_baseline-parts b rp st h in
    rw e (
      read_baseline-load _ b (
        load-atomic_write state_baseline (as_document b) (retain rp old st).1
          (retain-Owns rp old st own kept) written))

load-retained :
    (old : Document) (st : Store)
    → Owns st
    → (retain true (some old) st).0 ≡ ok tt
    → (load (retain true (some old) st).1 state_previous ≡ ok (some (dumped_document old)))
      × (is_dir (retain true (some old) st).1.root_kind ≡ true)
unfolding retain
load-retained old st own h = (
  load-atomic_write state_previous old st own h,
  let (st', ensured, e) = atomic_write-written state_previous old st h in rw e ensured.dir,
)

-- A write_baseline that succeeds and is told to retain keeps the replaced document, with its keys
-- in order, as the previous baseline.
pub write_baseline-retains :
    (b : Baseline) (st : Store) {old : Document}
    → Owns st
    → load st state_baseline ≡ ok (some old)
    → (write_baseline b true st).0 ≡ ok tt
    → load (write_baseline b true st).1 state_previous ≡ ok (some (dumped_document old))
write_baseline-retains b st {old} own had h =
    let (found, e, kept, written, last) = write_baseline-parts b true st h in
    let same : found ≡ some old = cc in
    let kept' : (retain true (some old) st).0 ≡ ok tt = rw same at kept in
    let written' : (atomic_write state_baseline (as_document b) (retain true (some old) st).1).0
        ≡ ok tt =
      rw same at written in
    let (previous, dir) = load-retained old st own kept' in
    rw (last, same)
      (load-atomic_write_other state_baseline state_previous (as_document b) _ refl dir written'
        ∙ previous)
