-- ===== src/Guardian/Data.antt =====
-- scripts/macos/bootmux-network-guardian.py: the constants and the data types. A dict that the
-- program reads by `.get` is a record whose fields are optional; a time is a number of
-- milliseconds.
use bootmux.Base.{ℕ, String, Bool, true, false, Option, List, [], ◌∷◌, ◌++◌}

abbrev pub schema_version : ℕ
schema_version = 1

abbrev pub bootmux_usb_vid : ℕ
bootmux_usb_vid = 0x303a

abbrev pub bootmux_usb_pid : ℕ
bootmux_usb_pid = 0x4014

abbrev pub bootmux_product : String
bootmux_product = "BOOTMUX Bridge Experimental"

abbrev pub bootmux_serial : String
bootmux_serial = "BOOTMUX-R7A-NCM"

abbrev pub bootmux_net : String
bootmux_net = "10.77.0.0/24"

abbrev pub bootmux_peer : String
bootmux_peer = "10.77.0.1"

abbrev pub bootmux_service_hint : String
bootmux_service_hint = "BOOTMUX USB Ethernet"

abbrev pub min_signals : ℕ
min_signals = 2

abbrev pub min_hardware_signals : ℕ
min_hardware_signals = 1

abbrev pub baseline_stability : ℕ
baseline_stability = 15000

abbrev pub heartbeat_fail : ℕ
heartbeat_fail = 5000

abbrev pub wifi_toggle_cooldown : ℕ
wifi_toggle_cooldown = 120000

pub record Command : Type 0 where
  pub argv : List String
  pub step : String
  pub purpose : String
  pub target_interface : Option String
  pub target_service : Option String

pub record RepairPlan : Type 0 where
  pub commands : List Command
  pub notes : List String
  pub needs_change : Bool

abbrev pub empty_plan : RepairPlan
empty_plan = record { commands = []; notes = []; needs_change = false }

-- `RepairPlan.add`
abbrev pub add : Command → RepairPlan → RepairPlan
add c p = record p { commands = p.commands ++ (c ∷ []); needs_change = true }

-- `plan.notes.append`
abbrev pub note : String → RepairPlan → RepairPlan
note n p = record p { notes = p.notes ++ (n ∷ []) }

pub record IdentityResult : Type 0 where
  pub proven : Bool
  pub ambiguous : Bool
  pub interface : Option String
  pub service : Option String
  pub hardware_signals : List String
  pub network_signals : List String
  pub reason : String

-- The dicts that the host's observations return.
pub record UsbDevice : Type 0 where
  pub vid : Option ℕ
  pub pid : Option ℕ
  pub product : Option String
  pub serial : Option String

pub record Iface : Type 0 where
  pub name : String
  pub addresses : List String

pub record Route : Type 0 where
  pub destination : Option String
  pub gateway : Option String
  pub flags : String
  pub interface : Option String

-- `enabled` and `order` with their defaults, `True` and 0, already in place.
pub record Service : Type 0 where
  pub name : String
  pub device : Option String
  pub enabled : Bool
  pub order : ℕ

pub record Ipv4 : Type 0 where
  pub mode : Option String
  pub address : Option String
  pub subnet_mask : Option String
  pub router : Option String

pub record Dns : Type 0 where
  pub servers : List String
  pub search : List String

-- The blocks of a baseline.
pub record WifiBlock : Type 0 where
  pub hardware_device : Option String
  pub service_name : Option String
  pub power : Option Bool
  pub associated_ssid : Option String
  pub ipv4_mode : Option String
  pub ipv4_address : Option String
  pub subnet_mask : Option String
  pub router : Option String
  pub dns_servers : List String
  pub search_domains : List String

pub record NetworkBlock : Type 0 where
  pub default_gateway : Option String
  pub default_interface : Option String
  pub network_service_order : List String
  pub service_enabled_states : List (String × Bool)

pub record Baseline : Type 0 where
  pub captured_at : ℕ
  pub wifi : WifiBlock
  pub network : NetworkBlock
