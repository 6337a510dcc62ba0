-- ===== src/Guardian/Store.antt =====
-- scripts/macos/bootmux-network-guardian.py, `class StateStore`: the state directory, as far as the
-- class looks at it. The operating system does what it is asked: no write fails for want of space
-- or rights.
pub mod RoundTrip
use bootmux.Base.{
  ◌≡◌, refl, ◌⊎◌, inl, inr, ℕ, Bool, true, false, not, ◌&&◌, Option, none, some, List, [], ◌∷◌,
  String, ◌==◌, eq_ℕ, is_empty, if◌then◌else◌,
}
use bootmux.Base.Dict.{sort_keys}
use bootmux.Guardian.Data.{Baseline, schema_version}

-- A JSON object in a state file: its version, the keys that are not among BASELINE_KEYS, and what
-- the others hold.
pub record Document : Type 0 where
  pub version : Option ℕ
  pub unknown : List String
  pub body : Baseline

-- A file's text, by what `json.load` makes of it.
pub data Content : Type 0 where
  malformed not_object : Content
  object : Document → Content

-- `present` is `os.path.exists`, which a dangling link fails.
pub record File : Type 0 where
  pub link : Bool
  pub present : Bool
  pub mode : ℕ
  pub uid : ℕ
  pub content : Content

pub data Kind : Type 0 where
  absent directory other : Kind

-- The root is a link or not, and leads to something of a kind; `euid` owns what the process makes.
pub record Store : Type 0 where
  pub enforce_owner : Bool
  pub euid : ℕ
  pub root_link : Bool
  pub root_kind : Kind
  pub root_mode : ℕ
  pub root_uid : ℕ
  pub files : List (String × File)

pub data StoreError : Type 0 where
  dir_symlink dir_missing : StoreError
  dir_mode dir_owner : ℕ → StoreError
  file_symlink write_symlink root_not_object : String → StoreError
  file_mode file_owner : ℕ → String → StoreError
  wrong_schema : Option ℕ → StoreError
  unexpected_keys : List String → StoreError

-- What is raised: a StateStoreError, or what the handlers for it let through.
pub data Raised : Type 0 where
  state_store : StoreError → Raised
  json_decode file_exists : Raised

pub data Result {ℓ} (A : Type ℓ) : Type ℓ where
  ok : A → Result A
  raised : Raised → Result A

pub Result-cases {ℓ} :
    {A : Type ℓ} (r : Result A) → ((a : A) × (r ≡ ok a)) ⊎ ((e : Raised) × (r ≡ raised e))
Result-cases (ok a) = inl (a, refl)
Result-cases (raised e) = inr (e, refl)

infixl 5 ◌>>=◌ ◌>>◌
abbrev pub ◌>>=◌ {ℓ κ} : {A : Type ℓ} {B : Type κ} → Result A → (A → Result B) → Result B
ok a >>= f = f a
raised e >>= f = raised e

abbrev pub ◌>>◌ {ℓ} : {B : Type ℓ} → Result (Unit {0}) → Result B → Result B
m >> k = m >>= λ _. k

-- `if test: raise StateStoreError(...)`
abbrev pub refuse_if : Bool → StoreError → Result (Unit {0})
refuse_if test e = if test then raised (state_store e) else ok tt

abbrev pub is_dir : Kind → Bool
is_dir directory = true
is_dir _ = false

abbrev mode_700 : ℕ
mode_700 = 0o700

abbrev mode_600 : ℕ
mode_600 = 0o600

abbrev pub state_baseline : String
state_baseline = "baseline.json"

abbrev pub state_previous : String
state_previous = "previous-baseline.json"

unfoldable pub lookup_file : String → List (String × File) → Option File
lookup_file name [] = none
lookup_file name ((n, f) ∷ files) =
    let rest = lookup_file name files in if n == name then some f else rest

put_file : String → File → List (String × File) → List (String × File)
put_file name file [] = (name, file) ∷ []
put_file name file ((n, f) ∷ files) =
    if n == name then (n, file) ∷ files else (n, f) ∷ put_file name file files

unfoldable pub validate_dir : Store → Result (Unit {0})
validate_dir st = do
  refuse_if st.root_link dir_symlink
  refuse_if (not (is_dir st.root_kind)) dir_missing
  refuse_if (not (eq_ℕ st.root_mode mode_700)) (dir_mode st.root_mode)
  refuse_if (st.enforce_owner && not (eq_ℕ st.root_uid 0)) (dir_owner st.root_uid)

-- `ensure_dir`; `os.makedirs` raises where something else than a directory is there.
unfoldable pub ensure_dir : Store → Result Store
ensure_dir st = if st.root_link then raised (state_store dir_symlink) else elim st.root_kind [
  | absent ↦
      ok (record st { root_kind = directory; root_mode = mode_700; root_uid = st.euid; files = [] })
  | directory ↦ ok (record st { root_mode = mode_700 })
  | other ↦ raised file_exists
]

unfoldable pub validate_file : Store → String → File → Result (Unit {0})
validate_file st name f = do
  refuse_if f.link (file_symlink name)
  refuse_if (not (eq_ℕ f.mode mode_600)) (file_mode f.mode name)
  refuse_if (st.enforce_owner && not (eq_ℕ f.uid 0)) (file_owner f.uid name)

abbrev is_link : Option File → Bool
is_link none = false
is_link (some f) = f.link

-- What `json.dump` with sort_keys keeps of an object, as `json.load` reads it again: the keys of its
-- dicts, of which only those of service_enabled_states are data, come back in order.
abbrev pub dumped : Baseline → Baseline
dumped b =
    let n = b.network in
    record b { network = record n { service_enabled_states = sort_keys n.service_enabled_states } }

abbrev pub dumped_document : Document → Document
dumped_document d = record d { body = dumped d.body }

-- The file that `atomic_write` moves into place.
abbrev pub written_file : ℕ → Document → File
written_file euid payload = record {
  link = false;
  present = true;
  mode = mode_600;
  uid = euid;
  content = object (dumped_document payload);
}

unfoldable pub replace_file : String → Document → Store → Result (Unit {0}) × Store
unfolding put_file
replace_file name payload st =
    if is_link (lookup_file name st.files)
    then (raised (state_store (write_symlink name)), st)
    else (ok tt, record st { files = put_file name (written_file st.euid payload) st.files })

-- `atomic_write`: the finished file replaces what was there. The store comes back as it is left,
-- also after a raise.
unfoldable pub atomic_write : String → Document → Store → Result (Unit {0}) × Store
unfolding replace_file
atomic_write name payload st = elim (ensure_dir st) [
  | raised e ↦ (raised e, st)
  | ok st' ↦ replace_file name payload st'
]

-- `json.load` and the test that follows it.
read_content : String → Content → Result (Option Document)
read_content name malformed = raised json_decode
read_content name not_object = raised (state_store (root_not_object name))
read_content name (object d) = ok (some d)

load_file : Store → String → Option File → Result (Option Document)
unfolding read_content
load_file st name none = ok none
load_file st name (some f) =
    if f.present then validate_file st name f >> read_content name f.content else ok none

-- `load`, in a root that is a directory or leads to one.
unfoldable pub load : Store → String → Result (Option Document)
unfolding load_file
load st name =
    if is_dir st.root_kind then load_file st name (lookup_file name st.files) else ok none

abbrev is_version : Option ℕ → Bool
is_version none = false
is_version (some v) = eq_ℕ v schema_version

check_document : Option Document → Result (Option Baseline)
check_document none = ok none
check_document (some d) = do
  refuse_if (not (is_version d.version)) (wrong_schema d.version)
  refuse_if (not (is_empty d.unknown)) (unexpected_keys d.unknown)
  ok (some d.body)

unfoldable pub read_baseline : Store → Result (Option Baseline)
unfolding check_document
read_baseline st = load st state_baseline >>= check_document

abbrev pub as_document : Baseline → Document
as_document b = record { version = some schema_version; unknown = []; body = b }

-- What `write_baseline` keeps of the old file before it writes the new one.
retain : Bool → Option Document → Store → Result (Unit {0}) × Store
retain retain_previous none st = (ok tt, st)
retain retain_previous (some old) st =
    if retain_previous then atomic_write state_previous old st else (ok tt, st)

write_after : Baseline → Result (Unit {0}) × Store → Result (Unit {0}) × Store
write_after b (raised e, kept) = (raised e, kept)
write_after b (ok _, kept) = atomic_write state_baseline (as_document b) kept

unfoldable pub write_baseline : Baseline → Bool → Store → Result (Unit {0}) × Store
unfolding retain write_after
write_baseline b retain_previous st = elim (load st state_baseline) [
  | raised e ↦ (raised e, st)
  | ok old ↦ write_after b (retain retain_previous old st)
]
