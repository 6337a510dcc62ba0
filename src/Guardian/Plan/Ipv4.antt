-- ===== src/Guardian/Plan/Ipv4.antt =====
-- scripts/macos/bootmux-network-guardian.py, `plan_r3_ipv4` (R3).
use bootmux.Base.{
  ◌≡◌, arith, truthy-eq, Bool, not, ◌&&◌, Option, none, some, [], ◌∷◌, String, ◌<>◌, is_text,
  truthy, if◌then◌else◌,
}
use bootmux.Guardian.Data.{Command, RepairPlan, Baseline, WifiBlock, Ipv4, add, note, empty_plan}
use bootmux.Guardian.Host.{Host}

abbrev pub renew_dhcp : String → Command
renew_dhcp device = record {
  argv = "ipconfig" ∷ "set" ∷ device ∷ "DHCP" ∷ [];
  step = "R3";
  purpose = "renew DHCP on " <> device;
  target_interface = some device;
  target_service = none;
}

abbrev pub restore_manual : String → String → String → String → Command
restore_manual service addr mask router = record {
  argv = "networksetup" ∷ "-setmanual" ∷ service ∷ addr ∷ mask ∷ router ∷ [];
  step = "R3";
  purpose = "restore manual IPv4 on " <> service;
  target_interface = none;
  target_service = some service;
}

-- The four values of a complete manual baseline: `service and addr and mask and router`.
unfoldable pub all_given :
    Option String
    → Option String
    → Option String
    → Option String
    → Option (String × String × String × String)
all_given service addr mask router = elim (truthy service) [
  | none ↦ none
  | some s ↦ elim (truthy addr) [
    | none ↦ none
    | some a ↦ elim (truthy mask) [
      | none ↦ none
      | some m ↦ elim (truthy router) [ none ↦ none | some r ↦ some (s, a, m, r) ]
    ]
  ]
]

pub all_given-eq :
    (service addr mask router : Option String) {s a m r : String}
    → all_given service addr mask router ≡ some (s, a, m, r)
    → (service ≡ some s) × (addr ≡ some a) × (mask ≡ some m) × (router ≡ some r)
unfolding all_given
all_given-eq service addr mask router h =
    ground (arith, truthy-eq service, truthy-eq addr, truthy-eq mask, truthy-eq router)

-- The test `same`.
unfoldable pub same_ipv4 : Ipv4 → String → String → String → Bool
same_ipv4 current addr mask router =
    is_text current.mode "manual"
    && is_text current.address addr
    && is_text current.subnet_mask mask
    && is_text current.router router

plan_manual : WifiBlock → Ipv4 → RepairPlan
unfolding all_given same_ipv4
plan_manual wifi current =
    elim (all_given wifi.service_name wifi.ipv4_address wifi.subnet_mask wifi.router) [
      | none ↦ note "R3: manual baseline incomplete; refusing to invent values" empty_plan
      | some (service, addr, mask, router) ↦
          if not (same_ipv4 current addr mask router)
          then add (restore_manual service addr mask router) empty_plan
          else note ("R3: " <> service <> " manual IPv4 already matches baseline") empty_plan
    ]

plan_dhcp : String → Ipv4 → RepairPlan
plan_dhcp device current =
    if not (is_text current.mode "dhcp")
    then add (renew_dhcp device) empty_plan
    else note ("R3: " <> device <> " already DHCP") empty_plan

-- `{mode!r}`, without the quotes' escapes.
abbrev show_repr : Option String → String
show_repr none = "None"
show_repr (some s) = "'" <> s <> "'"

module _ (host : Host) where
  unfoldable pub plan_r3_ipv4 : Option Baseline → host.State → RepairPlan
  unfolding plan_manual plan_dhcp
  plan_r3_ipv4 none s = note "R3: no baseline; not inventing IPv4 config" empty_plan
  plan_r3_ipv4 (some b) s = elim (truthy b.wifi.hardware_device) [
    | none ↦ note "R3: baseline has no Wi-Fi device" empty_plan
    | some device ↦
        let current = host.wifi_ipv4 s device in
        if is_text b.wifi.ipv4_mode "dhcp"
        then plan_dhcp device current
        else if is_text b.wifi.ipv4_mode "manual"
        then plan_manual b.wifi current
        else note ("R3: baseline ipv4_mode " <> show_repr b.wifi.ipv4_mode <> " not restorable")
            empty_plan
  ]
