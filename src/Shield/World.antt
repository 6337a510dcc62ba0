-- ===== src/Shield/World.antt =====
-- scripts/macos/bootmux-attach-shield.py: `ShieldState`, the entries of the journal, the fingerprint,
-- and the files that hold them. A malformed JSON line or file is one that `json.loads` refuses; the
-- path, mode and time stamp of a file or line are left out, and so are the data of a log line.
use bootmux.Base.{ℕ, ℤ, Bool, Option, none, some, List, [], ◌∷◌, ◌++◌, String}
use bootmux.Base.Dict.{put, get_or}
use bootmux.Shield.Baseline.{Baseline}
use bootmux.Shield.Host.{Reply, Host, Change}
use bootmux.Shield.Parse.{Manual}

-- `entry["category"]`; `other` is one that `_rollback_one` does not know.
pub data Category : Type 0 where
  service_disable service_enable route_add route_delete dns_set search_set order_set : Category
  ipv4_set ipv6_set pf_enable pf_anchor_load location_switch location_create : Category
  wifi_power_set other : Category

-- `entry["pre_value"]`, a dict that is read by `.get`.
pub record PreValue : Type 0 where
  pub enabled : Option Bool
  pub existed : Option Bool
  pub gateway : Option String
  pub family : Option String
  pub automatic : Option Bool
  pub servers : Option (List String)
  pub domains : Option (List String)
  pub order : Option (List String)
  pub mode : Option String
  pub manual : Option Manual
  pub location : Option String
  pub power : Option Bool
  pub rules : Option String

abbrev pub empty_pre : PreValue
empty_pre = record {
  enabled = none;
  existed = none;
  gateway = none;
  family = none;
  automatic = none;
  servers = none;
  domains = none;
  order = none;
  mode = none;
  manual = none;
  location = none;
  power = none;
  rules = none;
}

pub record Entry : Type 0 where
  pub seq : ℕ
  pub category : Category
  pub target : String
  pub pre_value : Option PreValue
  pub cmd : List String
  pub exit_code : ℤ

pub data Line : Type 0 where
  malformed : Line
  entry : Entry → Line

pub record Fingerprint : Type 0 where
  pub network_location : String
  pub service_order : List String
  pub service_enabled : List (String × Bool)
  pub routes : List String
  pub dns : List String × Bool
  pub search : List String × Bool
  pub wifi_ipv4_mode : String
  pub wifi_ipv6_mode : String
  pub pf_enabled : Bool
  pub pf_anchors : List String
  pub launchd_loaded : Bool
  pub shield_files : List String

pub record ShieldState : Type 0 where
  pub armed : Bool
  pub session_id : String
  pub baseline : Option Baseline
  pub pinned_routes : List String
  pub quarantined_services : List String
  pub untrusted_interfaces : List String
  pub pf_anchor_active : Bool
  pub pf_was_enabled : Bool
  pub armed_at : ℕ
  pub expires_at : ℕ
  pub ttl_seconds : ℕ
  pub classification : String
  pub shield_location : String
  pub original_location : String
  pub location_mode : Bool
  pub session_closed : Bool

pub data StateFile : Type 0 where
  missing corrupt : StateFile
  stored : ShieldState → StateFile

-- What `load_state` makes of the file.
abbrev pub loaded : StateFile → Option ShieldState
loaded missing = none
loaded corrupt = none
loaded (stored s) = some s

-- The report that `cmd_uninstall` archives.
pub record Evidence : Type 0 where
  pub session_id : String
  pub classification : String
  pub armed_at : ℕ
  pub fingerprint_post : Fingerprint

-- The files that the program writes. Journals, first fingerprints and logs are by session.
pub record Disk : Type 0 where
  pub state_file : StateFile
  pub journals : List (String × List Line)
  pub first_prints : List (String × Fingerprint)
  pub logs : List (String × List String)
  pub evidence : List (String × Evidence)
  pub plist : Bool
  pub installed : Bool

-- The Mac, the files, and `_seq` of the journal that was opened last.
pub record World (host : Host) : Type 0 where
  pub mac : host.Mac
  pub disk : Disk
  pub seq : ℕ

module _ (host : Host) where
  abbrev pub Shield : Type 0 → Type 0
  Shield A = Change (World host) A

  -- A computation on the Mac alone.
  abbrev pub on_mac : {A : Type 0} → Change host.Mac A → Shield A
  on_mac m w = let (a, mac') = m w.mac in (a, record w { mac = mac' })

  abbrev pub exec : List String → Shield Reply
  exec cmd = on_mac (host.run cmd)

  abbrev pub do_exec : List String → Shield (Unit {0})
  do_exec cmd w = let (_, w') = exec cmd w in (tt, w')

  abbrev pub on_disk : (Disk → Disk) → Shield (Unit {0})
  on_disk f w = (tt, record w { disk = f w.disk })

  abbrev pub get_now : Shield ℕ
  get_now w = (host.now w.mac, w)

  -- `logger.log`, below the limit on the size of the log
  abbrev pub log : String → String → Shield (Unit {0})
  log session event =
      on_disk λ d. record d { logs = put session (get_or [] session d.logs ++ (event ∷ [])) d.logs }

  -- `load_state`
  abbrev pub load_state : Shield (Option ShieldState)
  load_state w = (loaded w.disk.state_file, w)

  -- `save_state`
  abbrev pub save_state : ShieldState → Shield (Unit {0})
  save_state s = on_disk λ d. record d { state_file = stored s }
