-- ===== src/Guardian/Plan/Service.antt =====
-- scripts/macos/bootmux-network-guardian.py, `plan_r2_service` (R2).
use bootmux.Base.{
  Bool, true, not, none, some, List, [], ◌∷◌, String, ◌<>◌, ◌==◌, truthy, if◌then◌else◌,
}
use bootmux.Guardian.Data.{Command, RepairPlan, IdentityResult, Service, add, note, empty_plan}
use bootmux.Guardian.Host.{Host}

-- The loop that looks the service up: enabled unless the first service of that name says otherwise.
unfoldable pub enabled_of : String → List Service → Bool
enabled_of name [] = true
enabled_of name (svc ∷ services) =
    let rest = enabled_of name services in if svc.name == name then svc.enabled else rest

abbrev pub disable_command : String → Command
disable_command service = record {
  argv = "networksetup" ∷ "-setnetworkserviceenabled" ∷ service ∷ "off" ∷ [];
  step = "R2";
  purpose = "disable BOOTMUX service " <> service;
  target_interface = none;
  target_service = some service;
}

module _ (host : Host) where
  unfoldable pub plan_r2_service : IdentityResult → host.State → RepairPlan
  plan_r2_service identity s = elim (truthy identity.service) [
    | none ↦ note "R2: no network service maps to the BOOTMUX interface" empty_plan
    | some service ↦
        if not (enabled_of service (host.services s))
        then note ("R2: service " <> service <> " already disabled") empty_plan
        else add (disable_command service) empty_plan
  ]
