-- ===== src/Guardian/Plan/Dns.antt =====
-- scripts/macos/bootmux-network-guardian.py, `plan_r4_dns` (R4).
use bootmux.Base.{
  Option, none, some, List, [], ◌∷◌, String, ◌<>◌, not, is_empty, same_texts, truthy, if◌then◌else◌,
}
use bootmux.Guardian.Data.{Command, RepairPlan, Baseline, add, note, empty_plan}
use bootmux.Guardian.Host.{Host}

-- `*want` where there is something wanted, else "Empty".
abbrev pub or_Empty : List String → List String
or_Empty want = if not (is_empty want) then want else "Empty" ∷ []

abbrev pub dns_command : String → String → String → List String → Command
dns_command flag what service want = record {
  argv = "networksetup" ∷ flag ∷ service ∷ or_Empty want;
  step = "R4";
  purpose = "restore " <> what <> " on " <> service;
  target_interface = none;
  target_service = some service;
}

-- The DNS servers, and then the search domains on what that planned.
plan_servers : String → List String → List String → RepairPlan → RepairPlan
plan_servers service want current plan =
    if not (same_texts current want)
    then add (dns_command "-setdnsservers" "DNS" service want) plan
    else note ("R4: DNS on " <> service <> " already matches baseline") plan

plan_search : String → List String → List String → RepairPlan → RepairPlan
plan_search service want current plan =
    if not (same_texts current want)
    then add (dns_command "-setsearchdomains" "search domains" service want) plan
    else note ("R4: search domains on " <> service <> " already match baseline") plan

module _ (host : Host) where
  unfoldable pub plan_r4_dns : Option Baseline → host.State → RepairPlan
  unfolding plan_servers plan_search
  plan_r4_dns none s = note "R4: no baseline; not inventing DNS config" empty_plan
  plan_r4_dns (some b) s = elim (truthy b.wifi.service_name) [
    | none ↦ note "R4: baseline has no Wi-Fi service" empty_plan
    | some service ↦
        let current = host.dns s service in
        plan_search service b.wifi.search_domains current.search
          (plan_servers service b.wifi.dns_servers current.servers empty_plan)
  ]
