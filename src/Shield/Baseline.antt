-- ===== src/Shield/Baseline.antt =====
-- scripts/macos/bootmux-attach-shield.py: `Baseline`, `capture_baseline` and `_pf_is_enabled`. What
-- `to_dict` writes, `from_dict` reads back, so a stored baseline is the record.
use bootmux.Base.{
  ℕ, Bool, true, false, not, ◌&&◌, Option, none, some, List, [], ◌∷◌, map, filter, find, String,
  ◌==◌, strip, text_in, if◌then◌else◌,
}
use bootmux.Shield.Host.{Reply, ok, Host, Change, ◌>>=◌, pure}
use bootmux.Shield.Parse.{
  Manual, parse_service_order, parse_default_route, parse_interfaces, parse_ipv4_info,
  parse_ipv6_mode, parse_dns_servers, parse_search_domains, is_virtual_service,
}
use bootmux.Base.Lines.{mentions, search_after}

pub record Baseline : Type 0 where
  pub network_location : String
  pub wifi_device : String
  pub wifi_service : String
  pub wifi_enabled : Bool
  pub wifi_power : Bool
  pub ssid : String
  pub ssid_digest : String
  pub ipv4_mode : String
  pub ipv4_manual : Option Manual
  pub ipv6_mode : String
  pub gateway : String
  pub gateway_interface : String
  pub dns_servers : List String
  pub dns_automatic : Bool
  pub dns_search : List String
  pub search_automatic : Bool
  pub service_order : List String
  pub service_enabled : List (String × Bool)
  pub interfaces : List (String × String)
  pub virtual_services : List String
  pub pf_enabled : Bool
  pub captured_at : ℕ

-- `Baseline()`
abbrev pub empty_baseline : Baseline
empty_baseline = record {
  network_location = "";
  wifi_device = "";
  wifi_service = "";
  wifi_enabled = false;
  wifi_power = false;
  ssid = "";
  ssid_digest = "";
  ipv4_mode = "";
  ipv4_manual = none;
  ipv6_mode = "";
  gateway = "";
  gateway_interface = "";
  dns_servers = [];
  dns_automatic = true;
  dns_search = [];
  search_automatic = true;
  service_order = [];
  service_enabled = [];
  interfaces = [];
  virtual_services = [];
  pf_enabled = false;
  captured_at = 0;
}

-- `Baseline.redacted_dict`
unfoldable pub redacted : Baseline → Baseline
redacted b = record b {
  ssid = "<redacted>";
  gateway = "<redacted>";
  dns_servers = map (λ _. "<redacted>") b.dns_servers;
}

abbrev pub given : String → Bool
given s = not (s == "")

-- `""` where there is none.
abbrev pub or_blank : Option String → String
or_blank none = ""
or_blank (some s) = s

abbrev pub wifi_service_of : List String → String
wifi_service_of order = or_blank (find (λ svc. mentions "wi-fi" svc) order)

-- The device of the first port that names Wi-Fi.
abbrev wifi_device_of : List (String × String) → String
wifi_device_of interfaces = elim (find (λ e. mentions "wi-fi" e.1) interfaces) [
  | none ↦ ""
  | some (device, port) ↦ device
]

module _ (host : Host) where
  abbrev pub run : List String → Change host.Mac Reply
  run cmd = host.run cmd

  -- A command that only runs where the test holds; its output is empty elsewhere.
  unfoldable pub run_if : Bool → List String → Change host.Mac String
  run_if test cmd m = let (r, m') = host.run cmd m in if test then (r.stdout, m') else ("", m)

  -- `_pf_is_enabled`
  unfoldable pub pf_is_enabled : Change host.Mac Bool
  pf_is_enabled = do
    r ← run ("pfctl" ∷ "-s" ∷ "info" ∷ [])
    pure (ok r && text_in "Status: Enabled" r.stdout)

  -- `get_current_location`
  unfoldable pub get_current_location : Change host.Mac String
  get_current_location = do
    r ← run ("networksetup" ∷ "-getcurrentlocation" ∷ [])
    pure (if ok r then strip r.stdout else "")

  unfoldable pub capture_baseline : Change host.Mac Baseline
  unfolding run_if get_current_location pf_is_enabled
  capture_baseline = do
    captured ← λ m. (host.now m, m)
    location ← get_current_location
    ports ← run ("networksetup" ∷ "-listallhardwareports" ∷ [])
    let interfaces = parse_interfaces ports.stdout
    let device = wifi_device_of interfaces
    listed ← run ("networksetup" ∷ "-listnetworkserviceorder" ∷ [])
    let (order, enabled) = parse_service_order listed.stdout
    let service = wifi_service_of order
    power ← run_if (given device) ("networksetup" ∷ "-getairportpower" ∷ device ∷ [])
    network ← run_if (given device) ("networksetup" ∷ "-getairportnetwork" ∷ device ∷ [])
    let found = search_after "Current Wi-Fi Network:" network
    info ← run_if (given service) ("networksetup" ∷ "-getinfo" ∷ service ∷ [])
    let (mode, manual) = parse_ipv4_info info
    default ← run ("route" ∷ "-n" ∷ "get" ∷ "default" ∷ [])
    let (gateway, gateway_interface) = parse_default_route default.stdout
    dns ← run_if (given service) ("networksetup" ∷ "-getdnsservers" ∷ service ∷ [])
    let (servers, automatic) = parse_dns_servers dns
    search ← run_if (given service) ("networksetup" ∷ "-getsearchdomains" ∷ service ∷ [])
    let (domains, search_automatic) = parse_search_domains search
    pf ← pf_is_enabled
    pure (record {
      network_location = location;
      wifi_device = device;
      wifi_service = service;
      wifi_enabled = false;
      wifi_power = given device && text_in "On" power;
      ssid = if given device then or_blank found else "";
      ssid_digest =
          if given device then (elim found [ none ↦ "" | some s ↦ host.digest s ]) else "";
      ipv4_mode = if given service then mode else "";
      ipv4_manual = if given service then manual else none;
      ipv6_mode = if given service then parse_ipv6_mode info else "";
      gateway = gateway;
      gateway_interface = gateway_interface;
      dns_servers = if given service then servers else [];
      dns_automatic = if given service then automatic else true;
      dns_search = if given service then domains else [];
      search_automatic = if given service then search_automatic else true;
      service_order = order;
      service_enabled = enabled;
      interfaces = interfaces;
      virtual_services = filter is_virtual_service order;
      pf_enabled = pf;
      captured_at = captured;
    })
