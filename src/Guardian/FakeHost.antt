-- ===== src/Guardian/FakeHost.antt =====
-- scripts/macos/bootmux-network-guardian.py, `class FakeHost`: the simulator of the tests and of
-- `--self-test`. Where the source would index past the end of a command, which no planner's
-- command makes it do, the simulation leaves the state as it is.
pub mod Routes
use bootmux.Base.{
  ℕ, suc, ◌+◌, Bool, true, false, not, ◌&&◌, Option, none, some, List, [], ◌∷◌, ◌++◌, map, String,
  ◌==◌, pos, codes, contains, all, filter, is_empty, is_text, same_texts, if◌then◌else◌,
}
use mathlib.Core.List.{reverse}
use bootmux.Guardian.Address.{split_dots, is_digit}
use bootmux.Guardian.Data.{UsbDevice, Iface, Route, Service, Ipv4, Dns}
use bootmux.Guardian.Host.{Host, Reply}
use bootmux.Guardian.Plan.Order.{ordered_names}

pub record Fake : Type 0 where
  pub usb : List UsbDevice
  pub ifaces : List Iface
  pub routes : List Route
  pub services : List Service
  pub wifi_device : Option String
  pub wifi_power : Option Bool
  pub wifi_ssid : Option String
  pub wifi_ipv4 : Ipv4
  pub dns : List (String × Dns)
  pub heartbeat : Bool
  pub clock : ℕ
  pub commands : List (List String)
  pub run_results : List (List String × Reply)

-- `argv[argv.index(flag) + 1:]`
unfoldable pub after : String → List String → List String
after flag [] = []
after flag (w ∷ words) = let rest = after flag words in if w == flag then words else rest

abbrev first : List String → Option String
first [] = none
first (w ∷ words) = some w

abbrev last : List String → Option String
last words = first (reverse words)

all_digits : List ℕ → Bool
unfolding is_digit
all_digits part = not (is_empty part) && all is_digit part

four_numbers : List (List ℕ) → Bool
unfolding all_digits
four_numbers (a ∷ b ∷ c ∷ d ∷ []) = all_digits a && all_digits b && all_digits c && all_digits d
four_numbers _ = false

-- `re.match(r"^\d+\.\d+\.\d+\.\d+$", token)`
unfoldable pub is_dotted_quad : String → Bool
unfolding split_dots four_numbers
is_dotted_quad token = four_numbers (split_dots (codes token))

find_quad : List String → Option String
unfolding is_dotted_quad
find_quad [] = none
find_quad (w ∷ words) = let rest = find_quad words in if is_dotted_quad w then some w else rest

-- `gateway_arg`: the last word that is a dotted quad.
unfoldable pub gateway_arg : List String → Option String
unfolding find_quad
gateway_arg argv = find_quad (reverse argv)

dest_arg : List String → Option String
unfolding after
dest_arg argv =
    if contains "default" argv
    then some "default"
    else if contains "-net" argv
    then first (after "-net" argv)
    else if contains "-host" argv
    then first (after "-host" argv)
    else none

-- `_route_matches_delete`, for a command that names no gateway.
matches_destination : Route → List String → Bool
unfolding dest_arg after
matches_destination r argv = elim (dest_arg argv) [
  | none ↦ false
  | some dest ↦
      if not (is_text r.destination dest)
      then false
      else if contains "-ifscope" argv
      then elim (first (after "-ifscope" argv)) [
        | none ↦ false
        | some iface ↦ is_text r.interface iface
      ]
      else true
]

unfoldable pub route_matches_delete : Route → List String → Bool
unfolding gateway_arg matches_destination
route_matches_delete r argv = elim (gateway_arg argv) [
  | none ↦ matches_destination r argv
  | some gateway ↦ is_text r.gateway gateway
]

-- `svc["enabled"] = state == "on"` for the services of the name.
unfoldable pub switch_service : String → Bool → List Service → List Service
switch_service name enabled =
    map (λ svc. if svc.name == name then record svc { enabled = enabled } else svc)

place_service : String → ℕ → List Service → List Service
place_service name n = map (λ svc. if svc.name == name then record svc { order = n } else svc)

-- The loop of `-ordernetworkservices`, which numbers the names from 1.
order_services : ℕ → List String → List Service → List Service
unfolding place_service
order_services n [] services = services
order_services n (name ∷ names) services =
    order_services (suc n) names (place_service name n services)

abbrev no_entry : Dns
no_entry = record { servers = []; search = [] }

-- `self._dns.setdefault(name, {})`, changed by `f`.
update_dns : String → (Dns → Dns) → List (String × Dns) → List (String × Dns)
update_dns name f [] = (name, f no_entry) ∷ []
update_dns name f ((n, d) ∷ entries) =
    if n == name then (n, f d) ∷ entries else (n, d) ∷ update_dns name f entries

unfoldable pub lookup_dns : String → List (String × Dns) → Dns
lookup_dns name [] = no_entry
lookup_dns name ((n, d) ∷ entries) =
    let rest = lookup_dns name entries in if n == name then d else rest

-- `[] if vals == ["Empty"] else vals`
abbrev without_Empty : List String → List String
without_Empty vals = if same_texts vals ("Empty" ∷ []) then [] else vals

simulate_enabled : List String → Fake → Fake
unfolding switch_service
simulate_enabled (name ∷ state ∷ rest) f = record f {
  services = switch_service name (state == "on") f.services;
}
simulate_enabled _ f = f

-- `-setmanual`: the last three words.
simulate_manual : List String → Fake → Fake
simulate_manual (router ∷ mask ∷ address ∷ rest) f = record f {
  wifi_ipv4 = record {
    mode = some "manual";
    address = some address;
    subnet_mask = some mask;
    router = some router;
  };
}
simulate_manual _ f = f

simulate_servers : List String → Fake → Fake
unfolding update_dns
simulate_servers [] f = f
simulate_servers (name ∷ vals) f = record f {
  dns = update_dns name (λ d. record d { servers = without_Empty vals }) f.dns;
}

simulate_search : List String → Fake → Fake
unfolding update_dns
simulate_search [] f = f
simulate_search (name ∷ vals) f = record f {
  dns = update_dns name (λ d. record d { search = without_Empty vals }) f.dns;
}

-- The branch of `networksetup`.
simulate_networksetup : List String → Fake → Fake
unfolding after simulate_enabled simulate_manual simulate_servers simulate_search order_services
simulate_networksetup argv f =
    if contains "-setnetworkserviceenabled" argv
    then simulate_enabled (after "-setnetworkserviceenabled" argv) f
    else if contains "-setairportpower" argv
    then record f { wifi_power = some (is_text (last argv) "on") }
    else if contains "-setairportnetwork" argv
    then record f { wifi_ssid = last argv }
    else if contains "-setmanual" argv
    then simulate_manual (reverse argv) f
    else if contains "-setdnsservers" argv
    then simulate_servers (after "-setdnsservers" argv) f
    else if contains "-setsearchdomains" argv
    then simulate_search (after "-setsearchdomains" argv) f
    else if contains "-ordernetworkservices" argv
    then record f { services = order_services 1 (after "-ordernetworkservices" argv) f.services }
    else f

abbrev pub leased : Ipv4
leased = record {
  mode = some "dhcp";
  address = some "192.168.1.50";
  subnet_mask = some "255.255.255.0";
  router = some "192.168.1.1";
}

-- `_simulate`
unfoldable pub simulate : List String → Fake → Fake
unfolding route_matches_delete simulate_networksetup
simulate [] f = f
simulate (prog ∷ words) f =
    let argv = prog ∷ words in
    if prog == "route" && contains "delete" argv
    then record f { routes = filter (λ r. not (route_matches_delete r argv)) f.routes }
    else if prog == "networksetup"
    then simulate_networksetup argv f
    else if prog == "ipconfig" && contains "set" argv && contains "DHCP" argv
    then record f { wifi_ipv4 = leased }
    else f

lookup_result : List String → List (List String × Reply) → Option Reply
lookup_result argv [] = none
lookup_result argv ((key, reply) ∷ results) =
    let rest = lookup_result argv results in if same_texts key argv then some reply else rest

abbrev pub success : Reply
success = record { returncode = pos 0; stdout = ""; stderr = "" }

-- `FakeHost.run`
unfoldable pub fake_run : List String → Fake → Reply × Fake
unfolding simulate lookup_result
fake_run argv f =
    let f' = record f { commands = f.commands ++ (argv ∷ []) } in
    elim (lookup_result argv f.run_results) [
      | some reply ↦ (reply, f')
      | none ↦ (success, simulate argv f')
    ]

unfoldable pub advance : ℕ → Fake → Fake
advance t f = record f { clock = f.clock + t }

abbrev pub fake_host : Host
fake_host = record {
  State = Fake;
  usb_devices = λ f. f.usb;
  interfaces = λ f. f.ifaces;
  routes = λ f. f.routes;
  services = λ f. f.services;
  service_order = λ f. ordered_names f.services;
  wifi_device = λ f. f.wifi_device;
  wifi_power = λ f _. f.wifi_power;
  wifi_ssid = λ f _. f.wifi_ssid;
  wifi_ipv4 = λ f _. f.wifi_ipv4;
  dns = λ f service. lookup_dns service f.dns;
  heartbeat = λ f _. f.heartbeat;
  now = λ f. f.clock;
  run = fake_run;
}
