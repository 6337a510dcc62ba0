-- ===== src/Oracle/Physical.antt =====
-- scripts/macos/bootmux-physical-oracle.py: a sanitized snapshot of the Mac, and its comparison with one
-- that was saved. SHA-256 is a parameter.
pub mod Compare
pub mod Unchanged
use bootmux.Base.{
  ℕ, Bool, true, false, not, ◌&&◌, ◌||◌, Option, none, some, List, [], ◌∷◌, ◌++◌, map, String, ◌<>◌,
  ◌==◌, all, any, codes, filter, is_empty, is_text, is_zero, leb, length, eq_ℕ, same_text,
  same_texts, strip, first_chars, if◌then◌else◌,
}
use bootmux.Base.Dict.{get}
use bootmux.Base.Lines.{split_lines, on_first, starts, mentions, after_colon}
use bootmux.Base.Search.{is_number, int}
use bootmux.Guardian.Baseline.{capture_baseline}
use bootmux.Guardian.Data.{Route}
use bootmux.Guardian.Host.{Host, Reply}

-- The parts between the dots, as texts.
split_dots : String → List String
split_dots String.[] = "" ∷ []
split_dots (String.◌∷◌ c s) =
    let rest = split_dots s in
    if String.◌∷◌ c "" == "." then "" ∷ rest else on_first (λ part. String.◌∷◌ c part) rest

-- `a.isdigit() and 16 <= int(b) <= 31`
abbrev private_b : String → Bool
private_b b = not (b == "") && all is_number (codes b) && leb 16 (int b) && leb (int b) 31

class_of_parts : List String → String
unfolding int
class_of_parts (a ∷ b ∷ c ∷ d ∷ []) =
    if a == "169"
    then "169.254.x.x(link-local)"
    else if a == "10"
    then "10.x.x.x(private)"
    else if a == "192" && b == "168"
    then "192.168.x.x(private)"
    else if a == "172" && private_b b
    then "172.16-31.x.x(private)"
    else "<ip>"
class_of_parts _ = "<ip>"

-- `_ip_class`
unfoldable pub ip_class : Option String → String
unfolding class_of_parts split_dots
ip_class none = "<none>"
ip_class (some value) = if value == "" then "<none>" else class_of_parts (split_dots value)

route_lines : List String → Option String × Option String → Option String × Option String
unfolding strip after_colon
route_lines [] found = found
route_lines (raw ∷ lines) (iface, gw) =
    let line = strip raw in
    route_lines lines (
      if starts line "interface:"
      then (some (after_colon line), gw)
      else if starts line "gateway:"
      then (iface, some (after_colon line))
      else (iface, gw))

pub record WifiView : Type 0 where
  pub hardware_device : Option String
  pub service_name : Option String
  pub power : Option Bool
  pub ssid_token : String
  pub associated : Bool
  pub ipv4_mode : Option String
  pub ipv4_class : String
  pub router_class : String
  pub dns_server_count : ℕ
  pub dns_server_tokens : List String
  pub search_domain_count : ℕ

pub record NetworkView : Type 0 where
  pub default_gateway_class : String
  pub default_interface : Option String
  pub network_service_order : List String
  pub service_enabled_states : List (String × Bool)
  pub bootmux_routes : List Route

pub record Snapshot : Type 0 where
  pub captured_at : ℕ
  pub wifi : WifiView
  pub network : NetworkView
  pub bootmux_services : List String

module _ (host : Host) (sha256 : String → String) where
  -- `_token`
  unfoldable pub token : Option String → String
  token none = "<none>"
  token (some value) = "tok:" <> first_chars 12 (sha256 value)

  -- `_read_default_route`
  unfoldable pub read_default_route : host.State → Option String × String
  unfolding route_lines split_lines ip_class
  read_default_route s =
      let reply = (host.run ("route" ∷ "-n" ∷ "get" ∷ "default" ∷ []) s).0 in
      let (iface, gw) = route_lines (split_lines reply.stdout) (none, none) in
      if is_zero reply.returncode then (iface, ip_class gw) else (none, ip_class none)

  -- `sanitize_snapshot`; `capture_baseline` puts an empty list under `bootmux_routes`.
  unfoldable pub sanitize_snapshot : host.State → Snapshot
  unfolding token read_default_route ip_class
  sanitize_snapshot s =
      let base = capture_baseline host s in
      let wifi = base.wifi in
      let route = read_default_route s in
      let order = base.network.network_service_order in
      record {
        captured_at = base.captured_at;
        wifi = record {
          hardware_device = wifi.hardware_device;
          service_name = wifi.service_name;
          power = wifi.power;
          ssid_token = token wifi.associated_ssid;
          associated = elim wifi.associated_ssid [ none ↦ false | some _ ↦ true ];
          ipv4_mode = wifi.ipv4_mode;
          ipv4_class = ip_class wifi.ipv4_address;
          router_class = ip_class wifi.router;
          dns_server_count = length wifi.dns_servers;
          dns_server_tokens = map (λ server. token (some server)) wifi.dns_servers;
          search_domain_count = length wifi.search_domains;
        };
        network = record {
          default_gateway_class = route.1;
          default_interface = route.0;
          network_service_order = order;
          service_enabled_states = base.network.service_enabled_states;
          bootmux_routes = [];
        };
        bootmux_services = filter (λ name. mentions "bootmux" name) order;
      }
