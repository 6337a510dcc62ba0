-- ===== src/Guardian/Verify.antt =====
-- scripts/macos/bootmux-network-guardian.py, `verify` and `classify` (R7).
pub mod Agreement
use bootmux.Base.{
  Bool, true, false, not, ◌&&◌, Option, none, some, List, [], ◌∷◌, map, String, ◌<>◌, ◌==◌, any,
  all, filter, is_empty, is_text, same_text, same_texts, same_set, truthy, join, if◌then◌else◌,
}
use bootmux.Guardian.Data.{IdentityResult, Baseline, WifiBlock, NetworkBlock, Route, Service}
use bootmux.Guardian.Host.{Host}
use bootmux.Guardian.Plan.Routes.{owned}
use bootmux.Guardian.Plan.Service.{enabled_of}
use bootmux.Guardian.Plan.Order.{ordered_names, without, current_enabled, same_state}

-- The dict that `verify` returns; its keys are VERIFY_KEYS.
pub record Verification : Type 0 where
  pub bootmux_default_route_absent : Bool
  pub bootmux_scoped_routes_absent : Bool
  pub bootmux_service_disabled : Bool
  pub wifi_power_matches_baseline : Bool
  pub wifi_ssid_matches_baseline_or_redacted_equivalent : Bool
  pub wifi_ipv4_mode_matches_baseline : Bool
  pub wifi_default_route_restored : Bool
  pub wifi_dns_matches_baseline : Bool
  pub service_order_matches_baseline : Bool
  pub unrelated_services_unchanged : Bool

abbrev pub default_routes : List Route → List Route
default_routes = filter (λ r. is_text r.destination "default")

-- Equality of two route dicts, for `r not in bootmux_default`.
abbrev same_route : Route → Route → Bool
same_route a b =
    same_text a.destination b.destination
    && same_text a.gateway b.gateway
    && a.flags == b.flags
    && same_text a.interface b.interface

unfoldable pub non_bootmux_default : Option String → List Route → List Route
non_bootmux_default iface routes =
    let bootmux_default = filter (owned iface) (default_routes routes) in
    filter (λ r. not (any (same_route r) bootmux_default)) (default_routes routes)

-- `identity.service is None or not bootmux_service_enabled`
unfoldable pub service_disabled : Option String → List Service → Bool
service_disabled none services = true
service_disabled (some name) services = elim (truthy (some name)) [
  | none ↦ false
  | some service ↦ not (enabled_of service services)
]

abbrev same_power : Option Bool → Option Bool → Bool
same_power none none = true
same_power none (some b) = false
same_power (some a) none = false
same_power (some a) (some b) = same_state a b

-- `want_ssid in (None, "<redacted>") or cur_ssid == want_ssid`
ssid_matches : Option String → Option String → Bool
ssid_matches none current = true
ssid_matches (some want) current = if want == "<redacted>" then true else is_text current want

order_matches : Option String → List Service → NetworkBlock → Bool
order_matches service services network =
    let want = without service network.network_service_order in
    let current = without service (ordered_names services) in
    if not (is_empty want) && same_set want current then same_texts current want else true

-- One round of the loop over `want_enabled`.
abbrev pub keeps_state : Option String → List Service → String × Bool → Bool
keeps_state service services (name, want) =
    if is_text service name then true else elim (current_enabled services name) [
      | none ↦ true
      | some enabled ↦ same_state enabled want
    ]

abbrev pub wifi_of : Option Baseline → Option WifiBlock
wifi_of none = none
wifi_of (some b) = some b.wifi

module _ (host : Host) where
  -- The baseline's Wi-Fi block with its device, where there is one.
  abbrev pub with_device : Option Baseline → Option (WifiBlock × String)
  with_device none = none
  with_device (some b) = elim (truthy b.wifi.hardware_device) [
    | none ↦ none
    | some device ↦ some (b.wifi, device)
  ]

  dns_matches : WifiBlock → host.State → Bool
  dns_matches wifi s = elim (truthy wifi.service_name) [
    | none ↦ true
    | some service ↦ same_texts ((host.dns s service).servers) wifi.dns_servers
  ]

  on_wifi : Option Baseline → (WifiBlock → String → Bool) → Bool
  on_wifi baseline test = elim (with_device baseline) [ none ↦ true | some (w, d) ↦ test w d ]

  on_network : Option Baseline → (NetworkBlock → Bool) → Bool
  on_network none test = true
  on_network (some b) test = test b.network

  unfoldable pub verify : IdentityResult → Option Baseline → host.State → Verification
  unfolding dns_matches on_wifi on_network order_matches ssid_matches
  verify identity baseline s =
      let routes = host.routes s in
      let services = host.services s in
      let iface = identity.interface in
      record {
        bootmux_default_route_absent = is_empty (filter (owned iface) (default_routes routes));
        bootmux_scoped_routes_absent = is_empty (filter (owned iface) routes);
        bootmux_service_disabled = service_disabled identity.service services;
        wifi_power_matches_baseline =
            on_wifi baseline (λ w d. same_power (host.wifi_power s d) w.power);
        wifi_ssid_matches_baseline_or_redacted_equivalent =
            on_wifi baseline (λ w d. ssid_matches w.associated_ssid (host.wifi_ssid s d));
        wifi_ipv4_mode_matches_baseline =
            on_wifi baseline (λ w d. same_text ((host.wifi_ipv4 s d).mode) w.ipv4_mode);
        wifi_default_route_restored = not (is_empty (non_bootmux_default iface routes));
        wifi_dns_matches_baseline = on_wifi baseline (λ w d. dns_matches w s);
        service_order_matches_baseline =
            on_network baseline (order_matches identity.service services);
        unrelated_services_unchanged =
            on_network baseline
              (λ n. all (keeps_state identity.service services) n.service_enabled_states);
      }

-- The entries of the dict in the order of VERIFY_KEYS.
abbrev pub verify_entries : Verification → List (String × Bool)
verify_entries v =
    ("bootmux_default_route_absent", v.bootmux_default_route_absent)
    ∷ ("bootmux_scoped_routes_absent", v.bootmux_scoped_routes_absent)
    ∷ ("bootmux_service_disabled", v.bootmux_service_disabled)
    ∷ ("wifi_power_matches_baseline", v.wifi_power_matches_baseline)
    ∷ (
      "wifi_ssid_matches_baseline_or_redacted_equivalent",
      v.wifi_ssid_matches_baseline_or_redacted_equivalent,
    )
    ∷ ("wifi_ipv4_mode_matches_baseline", v.wifi_ipv4_mode_matches_baseline)
    ∷ ("wifi_default_route_restored", v.wifi_default_route_restored)
    ∷ ("wifi_dns_matches_baseline", v.wifi_dns_matches_baseline)
    ∷ ("service_order_matches_baseline", v.service_order_matches_baseline)
    ∷ ("unrelated_services_unchanged", v.unrelated_services_unchanged)
    ∷ []

abbrev pub passed : String × Bool → Bool
passed (key, b) = b

-- `classify`: none of the keys failed, or the names of those that did.
pub data Classification : Type 0 where
  repaired : Classification
  incomplete : List String → Classification

unfoldable pub classify_entries : List (String × Bool) → Classification
classify_entries entries =
    if all passed entries
    then repaired
    else incomplete (map (λ e. e.0) (filter (λ e. not (passed e)) entries))

unfoldable pub classify : Verification → Classification
unfolding classify_entries
classify v = classify_entries (verify_entries v)

-- The string that `classify` returns.
unfoldable pub show_classification : Classification → String
show_classification repaired = "REPAIRED"
show_classification (incomplete failed) = "INCOMPLETE:" <> join "," failed
