-- ===== src/Guardian/Baseline.antt =====
-- scripts/macos/bootmux-network-guardian.py, `host_is_clean`, `capture_baseline` and
-- `redact_baseline`.
use bootmux.Base.{
  ◌/◌, Bool, false, not, ◌||◌, Option, none, some, List, [], ◌∷◌, String, ◌==◌, any, find, is_text,
  truthy, if◌then◌else◌,
}
use bootmux.Guardian.Data.{
  IdentityResult, Baseline, WifiBlock, NetworkBlock, Service, Ipv4, Dns, Route, bootmux_peer,
}
use bootmux.Guardian.Host.{Host}
use bootmux.Guardian.Identity.{service_for_interface}
use bootmux.Guardian.Plan.Order.{ordered_names}

-- `identity.interface and route.get("interface") == identity.interface`
abbrev on_interface : Option String → Route → Bool
on_interface interface r = elim (truthy interface) [
  | none ↦ false
  | some name ↦ is_text r.interface name
]

-- `d[name] = enabled`
set_state : String → Bool → List (String × Bool) → List (String × Bool)
set_state name enabled [] = (name, enabled) ∷ []
set_state name enabled (e ∷ states) =
    if e.0 == name then (name, enabled) ∷ states else e ∷ set_state name enabled states

enabled_from : List (String × Bool) → List Service → List (String × Bool)
unfolding set_state
enabled_from states [] = states
enabled_from states (s ∷ services) = enabled_from (set_state s.name s.enabled states) services

abbrev no_ipv4 : Ipv4
no_ipv4 = record { mode = none; address = none; subnet_mask = none; router = none }

abbrev no_dns : Dns
no_dns = record { servers = []; search = [] }

abbrev gateway_of : Option Route → Option String
gateway_of none = none
gateway_of (some r) = r.gateway

abbrev interface_of : Option Route → Option String
interface_of none = none
interface_of (some r) = r.interface

module _ (host : Host) where
  unfoldable pub host_is_clean : IdentityResult → host.State → Bool
  host_is_clean identity s =
      if identity.proven
      then false
      else not (
          any (λ r. is_text r.gateway bootmux_peer || on_interface identity.interface r)
            (host.routes s))

  -- `wifi_block`
  capture_wifi : host.State → WifiBlock
  capture_wifi s =
      let device = host.wifi_device s in
      let given = truthy device in
      let service : Option String = elim given [
        | none ↦ none
        | some d ↦ service_for_interface (host.services s) d
      ] in
      let ipv4 : Ipv4 = elim given [ none ↦ no_ipv4 | some d ↦ host.wifi_ipv4 s d ] in
      let dns : Dns = elim (truthy service) [ none ↦ no_dns | some name ↦ host.dns s name ] in
      record {
        hardware_device = device;
        service_name = service;
        power = elim given [ none ↦ none | some d ↦ host.wifi_power s d ];
        associated_ssid = elim given [ none ↦ none | some d ↦ host.wifi_ssid s d ];
        ipv4_mode = ipv4.mode;
        ipv4_address = ipv4.address;
        subnet_mask = ipv4.subnet_mask;
        router = ipv4.router;
        dns_servers = dns.servers;
        search_domains = dns.search;
      }

  -- `network_block`
  unfoldable pub capture_network : host.State → NetworkBlock
  unfolding enabled_from
  capture_network s =
      let default_route = find (λ r. is_text r.destination "default") (host.routes s) in
      record {
        default_gateway = gateway_of default_route;
        default_interface = interface_of default_route;
        network_service_order = ordered_names (host.services s);
        service_enabled_states = enabled_from [] (host.services s);
      }

  unfoldable pub capture_baseline : host.State → Baseline
  unfolding capture_wifi capture_network
  capture_baseline s = record {
    captured_at = host.now s / 1000;
    wifi = capture_wifi s;
    network = capture_network s;
  }

abbrev redact_ssid : Option String → Option String
redact_ssid none = none
redact_ssid (some ssid) = some "<redacted>"

unfoldable pub redact_baseline : Option Baseline → Option Baseline
redact_baseline none = none
redact_baseline (some b) =
    some
      (record b { wifi = record b.wifi { associated_ssid = redact_ssid b.wifi.associated_ssid } })
