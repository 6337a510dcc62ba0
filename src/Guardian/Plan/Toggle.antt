-- ===== src/Guardian/Plan/Toggle.antt =====
-- scripts/macos/bootmux-network-guardian.py, `build_wifi_toggle_plan` (R6).
use bootmux.Base.{
  ℕ, ◌+◌, Bool, true, false, not, Option, none, some, [], ◌∷◌, String, ◌<>◌, ltb, truthy,
  if◌then◌else◌,
}
use bootmux.Guardian.Data.{
  Command, RepairPlan, Baseline, add, note, empty_plan, wifi_toggle_cooldown,
}

abbrev wifi_command : String → String → String → String → Command
wifi_command flag device word purpose = record {
  argv = "networksetup" ∷ flag ∷ device ∷ word ∷ [];
  step = "R6";
  purpose = purpose;
  target_interface = some device;
  target_service = none;
}

-- `last_toggle_at is not None and (now - last_toggle_at) < WIFI_TOGGLE_COOLDOWN_SECONDS`
unfoldable pub cooling : ℕ → Option ℕ → Bool
cooling now none = false
cooling now (some last) = ltb now (last + wifi_toggle_cooldown)

-- `power is not True`
abbrev not_on : Option Bool → Bool
not_on none = true
not_on (some b) = not b

rejoin : Option String → String → RepairPlan → RepairPlan
rejoin ssid device plan = elim (truthy ssid) [
  | none ↦ note "R6: SSID unavailable; relying on auto-join after power restore" plan
  | some name ↦
      add
        (wifi_command "-setairportnetwork" device name
          "rejoin captured SSID using saved credentials")
        plan
]

power_cycle : String → RepairPlan → RepairPlan
power_cycle device plan =
    add (wifi_command "-setairportpower" device "on" ("power on " <> device))
      (add (wifi_command "-setairportpower" device "off" ("power off " <> device)) plan)

unfoldable pub build_wifi_toggle_plan : Option Baseline → ℕ → Option ℕ → RepairPlan
unfolding cooling rejoin power_cycle
build_wifi_toggle_plan none now last = note "R6: no baseline; will not toggle Wi-Fi" empty_plan
build_wifi_toggle_plan (some b) now last = elim (truthy b.wifi.hardware_device) [
  | none ↦ note "R6: baseline has no Wi-Fi device" empty_plan
  | some device ↦
      if not_on b.wifi.power
      then note "R6: baseline Wi-Fi was not powered on; will not toggle" empty_plan
      else if cooling now last
      then note "R6: cooldown active; skipping toggle" empty_plan
      else rejoin b.wifi.associated_ssid device (power_cycle device empty_plan)
]
