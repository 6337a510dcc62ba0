-- ===== src/Runner/Data.antt =====
-- scripts/macos/bootmux-safe-flash-runner.py: `JournalEntry` and `FlashJournal`, the manifest, the
-- runner's fields, and the bench: what the runner sees of the machine and does to it. The time stamp
-- of an entry is left out.
use bootmux.Base.{
  ℕ, suc, ℤ, Bool, true, false, Option, none, some, List, [], ◌∷◌, ◌++◌, String, ◌==◌, any, codes,
  codes_start,
}

abbrev pub ttl_seconds : ℕ
ttl_seconds = 1800

-- A value in the `data` of an entry.
pub data Datum : Type 0 where
  flag : Bool → Datum
  count : ℕ → Datum
  code : ℤ → Datum
  text : String → Datum
  texts : List String → Datum
  null : Datum

pub record JournalEntry : Type 0 where
  pub seq : ℕ
  pub event : String
  pub values : List (String × Datum)
  pub status : String

-- `FlashJournal`: `_seq` and the lines of the file.
pub record FlashJournal : Type 0 where
  pub count : ℕ
  pub entries : List JournalEntry

abbrev pub new_journal : FlashJournal
new_journal = record { count = 0; entries = [] }

abbrev pub append : String → List (String × Datum) → String → FlashJournal → FlashJournal
append event values status j = record {
  count = suc j.count;
  entries =
      j.entries
      ++ (record { seq = suc j.count; event = event; values = values; status = status } ∷ []);
}

abbrev last_of : List JournalEntry → Option JournalEntry
last_of [] = none
last_of (e ∷ es) = elim (last_of es) [ none ↦ some e | some l ↦ some l ]

-- `last_event`
unfoldable pub last_event : FlashJournal → Option String
last_event j = elim (last_of j.entries) [ none ↦ none | some e ↦ some e.event ]

-- `can_resume_from`
unfoldable pub can_resume_from : String → FlashJournal → Bool
can_resume_from event j = any (λ e. e.event == event) j.entries

pub record Artifact : Type 0 where
  pub name : String
  pub path : String
  pub offset : String
  pub size : ℕ
  pub sha256 : String

-- A manifest with its defaults in place.
pub record Manifest : Type 0 where
  pub build_dir : String
  pub flash_mode : String
  pub flash_freq : String
  pub flash_size : String
  pub artifacts : List Artifact

-- What the runner reads of the inspector's report.
pub record Inspection : Type 0 where
  pub overall : Option String
  pub safe_off_marker : Datum
  pub usb_identity_match : Datum
  pub sdkconfig_marker : Datum

pub record Proc : Type 0 where
  pub returncode : ℤ
  pub stdout : String
  pub stderr : String

-- A fingerprint: its keys with the canonical texts of their values.
abbrev pub Fingerprint : Type 0
Fingerprint = List (String × String)

-- Python's command and environment for esptool.
pub record Esptool : Type 0 where
  pub argv : List String
  pub env : Option String

-- The machine. A command, a wait and a scan may find it in another state; `sha_of` reads a file
-- where it stands, and gives none where there is none.
pub record Bench : Type 1 where
  pub State : Type 0
  pub manifest_of : State → Option Manifest
  pub firmware_dir : State → String
  pub run_shield : List String → Bool → State → (ℤ × String) × State
  pub install : State → Proc × State
  pub list_serial_ports : State → List String × State
  pub check_rom : String → State → (Bool × String) × State
  pub inspect : State → Proc × State
  pub json_inspection : String → Option Inspection
  pub json_fingerprint : String → Option Fingerprint
  pub sha_of : String → State → Option String
  pub find_esptool : State → Option Esptool × State
  pub exec : List String → Option String → State → Proc × State
  pub readback : State → Option String
  pub unlink : State → State

-- The fields of `SafeFlashRunner` that its steps read and write. `firmware` is `build_dir.parent`.
pub record Runner : Type 0 where
  pub dry_run : Bool
  pub journal : FlashJournal
  pub manifest : Option Manifest
  pub firmware : Option String
  pub serial_port : Option String
  pub serial_baseline : List String
  pub pre_fingerprint : Option Fingerprint
  pub post_fingerprint : Option Fingerprint

abbrev pub new_runner : Bool → Runner
new_runner dry = record {
  dry_run = dry;
  journal = new_journal;
  manifest = none;
  firmware = none;
  serial_port = none;
  serial_baseline = [];
  pre_fingerprint = none;
  post_fingerprint = none;
}

abbrev pub log : String → List (String × Datum) → String → Runner → Runner
log event values status r = record r { journal = append event values status r.journal }

-- The string that a step returns: one of the fixed ones, `RED:` with a reason, or what the inspector
-- gave as its overall verdict.
pub data Outcome : Type 0 where
  green green_dry_run yellow red : Outcome
  red_because : String → Outcome
  verdict : String → Outcome

-- `result.startswith("RED")`
unfoldable pub is_red : Outcome → Bool
unfolding codes_start
is_red green = false
is_red green_dry_run = false
is_red yellow = false
is_red red = true
is_red (red_because reason) = true
is_red (verdict overall) = codes_start (codes overall) (codes "RED")
