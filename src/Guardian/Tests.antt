-- ===== src/Guardian/Tests.antt =====
-- Runs of the guardian on a simulated host.
mod RealMac
mod Witnesses
use bootmux.Base.{
  ◌≡◌, refl, Bool, true, false, Option, none, some, List, [], ◌∷◌, String, pos, length,
}
use bootmux.Guardian.Data.{Route, Service, UsbDevice, Iface, Ipv4, Dns, Baseline}
use bootmux.Guardian.Daemon.{
  Guardian, Mode, new_guardian, tick, TickReport, act, store_valid, do_repair, existing_baseline,
}
use bootmux.Guardian.Baseline.{host_is_clean, capture_baseline}
use bootmux.Guardian.FakeHost.{Fake, fake_host, leased, advance}
use bootmux.Guardian.Identity.{prove_identity}
use bootmux.Guardian.Repair.{Report, repair_once}
use bootmux.Guardian.Store.{
  Store, Document, Content, File, Kind, Result, ok, raised, as_document, object, malformed,
  directory, load, read_baseline, write_baseline, written_file, state_baseline, atomic_write,
  replace_file, ensure_dir,
}
use bootmux.Base.{codes_contain, codes_start, first_chars, lower, show_ℕ, strip}
use bootmux.Guardian.Address.{iface_in_bootmux_net, is_digit, split_dots}
use bootmux.Guardian.Execute.{tally, execute_plan}
use bootmux.Guardian.FakeHost.{
  after, gateway_arg, is_dotted_quad, lookup_dns, route_matches_delete, simulate, switch_service,
  fake_run,
}
use bootmux.Guardian.Identity.{hw_signals, service_for_interface}
use bootmux.Guardian.Plan.Ipv4.{all_given, same_ipv4, plan_r3_ipv4}
use bootmux.Guardian.Plan.Order.{
  current_enabled, needs_switch, ordered_names, plan_order, r5_loop, sort_by_order, without,
  plan_r5_order,
}
use bootmux.Guardian.Plan.Routes.{delete_route, is_link_gateway, plan_r1_routes}
use bootmux.Guardian.Plan.Service.{enabled_of, plan_r2_service}
use bootmux.Guardian.Plan.Toggle.{build_wifi_toggle_plan, cooling}
use bootmux.Guardian.Repair.{toggle_after, repair_with, baseline_of}
use bootmux.Guardian.Store.{validate_file, validate_dir, lookup_file}
use bootmux.Guardian.Verify.{
  classify_entries, non_bootmux_default, service_disabled, classify, verify,
}
use bootmux.Guardian.Plan.{build_repair_plan}
use bootmux.Guardian.Plan.Dns.{plan_r4_dns}

abbrev pub route : String → String → String → String → Route
route destination gateway flags interface = record {
  destination = some destination;
  gateway = some gateway;
  flags = flags;
  interface = some interface;
}

abbrev pub home_route : Route
home_route = route "default" "192.168.1.1" "UGS" "en0"

abbrev pub stale : Route
stale = route "default" "10.77.0.1" "UGS" "en7"

abbrev pub bridge : UsbDevice
bridge = record {
  vid = some 0x303a;
  pid = some 0x4014;
  product = some "BOOTMUX Bridge Experimental";
  serial = some "BOOTMUX-R7A-NCM";
}

abbrev pub bridge_iface : Iface
bridge_iface = record { name = "en7"; addresses = "10.77.0.2" ∷ [] }

abbrev pub wifi_service : Service
wifi_service = record { name = "Wi-Fi"; device = some "en0"; enabled = true; order = 1 }

abbrev pub bridge_service : Service
bridge_service = record {
  name = "BOOTMUX USB Ethernet";
  device = some "en7";
  enabled = true;
  order = 2;
}

-- The host of `--self-test`.
abbrev pub self_test_host : Fake
self_test_host = record {
  usb = [];
  ifaces = [];
  routes = stale ∷ home_route ∷ [];
  services = [];
  wifi_device = some "en0";
  wifi_power = some true;
  wifi_ssid = none;
  wifi_ipv4 = leased;
  dns = [];
  heartbeat = true;
  clock = 0;
  commands = [];
  run_results = [];
}

abbrev pub clean_host : Fake
clean_host = record self_test_host { routes = home_route ∷ []; services = wifi_service ∷ [] }

-- The bridge is plugged in and has taken the default route.
abbrev pub attached_host : Fake
attached_host = record self_test_host {
  usb = bridge ∷ [];
  ifaces = bridge_iface ∷ [];
  services = wifi_service ∷ bridge_service ∷ [];
  heartbeat = false;
}

abbrev pub baseline : Baseline
baseline = record {
  captured_at = 0;
  wifi = record {
    hardware_device = some "en0";
    service_name = some "Wi-Fi";
    power = some true;
    associated_ssid = none;
    ipv4_mode = some "dhcp";
    ipv4_address = some "192.168.1.50";
    subnet_mask = some "255.255.255.0";
    router = some "192.168.1.1";
    dns_servers = [];
    search_domains = [];
  };
  network = record {
    default_gateway = some "192.168.1.1";
    default_interface = some "en0";
    network_service_order = "Wi-Fi" ∷ [];
    service_enabled_states = ("Wi-Fi", true) ∷ [];
  };
}

abbrev pub empty_store : Store
empty_store = record {
  enforce_owner = true;
  euid = 0;
  root_link = false;
  root_kind = directory;
  root_mode = 0o700;
  root_uid = 0;
  files = [];
}

abbrev pub full_store : Store
full_store = record empty_store {
  files = (state_baseline, written_file 0 (as_document baseline)) ∷ [];
}

-- The baseline file may be read by everyone.
abbrev pub loose_store : Store
loose_store = record empty_store {
  files = (state_baseline, record (written_file 0 (as_document baseline)) { mode = 0o644 }) ∷ [];
}

abbrev pub broken_store : Store
broken_store = record empty_store {
  files =
      (state_baseline, record (written_file 0 (as_document baseline)) { content = malformed }) ∷ [];
}

-- The repair of the simulated host, with all that it calls.
unfoldable pub run_repair : Store → Fake → Result Report × Fake
unfolding repair_once prove_identity baseline_of validate_dir read_baseline load lookup_file
    repair_with classify verify execute_plan build_repair_plan plan_r1_routes plan_r2_service
    plan_r3_ipv4 plan_r4_dns plan_r5_order fake_run codes_contain codes_start first_chars lower
    show_ℕ strip iface_in_bootmux_net is_digit split_dots tally after gateway_arg is_dotted_quad
    route_matches_delete lookup_dns simulate switch_service hw_signals service_for_interface
    all_given same_ipv4 current_enabled needs_switch ordered_names plan_order r5_loop sort_by_order
    without delete_route is_link_gateway enabled_of build_wifi_toggle_plan cooling toggle_after
    validate_file classify_entries non_bootmux_default service_disabled
run_repair st f = repair_once fake_host st f.clock none f

-- `--self-test`: the stale route goes and the home route stays.
self_test : (run_repair empty_store self_test_host).1.routes ≡ home_route ∷ []
unfolding run_repair
self_test = refl

-- The daemon on the simulated host, with all that it calls.
unfoldable pub turn : Guardian → Store → Fake → Result TickReport × Guardian × Store × Fake
unfolding tick act store_valid do_repair existing_baseline run_repair host_is_clean capture_baseline
    write_baseline atomic_write replace_file ensure_dir
turn g st f = tick fake_host g st f

-- The heartbeat has been missing for six seconds.
abbrev pub silent : Guardian
silent = record new_guardian { was_attached = true; heartbeat_fail_since = some 1000 }

abbrev pub silent_host : Fake
silent_host = record attached_host { clock = 7000 }

-- A clean host, and a daemon that has been idle for twenty seconds.
abbrev pub settled : Guardian
settled = record new_guardian { stable_since = some 0 }

abbrev pub settled_host : Fake
settled_host = record clean_host { clock = 20000 }

-- The report of a repair, or the given one where it raises.
abbrev pub report_of : Report → Result Report → Report
report_of default (ok r) = r
report_of default (raised e) = default

-- The baseline of a Mac that was in a network of its own.
abbrev pub home_baseline : Baseline
home_baseline = record baseline { wifi = record (baseline.wifi) { associated_ssid = some "Home" } }

abbrev pub home_store : Store
home_store = record empty_store {
  files = (state_baseline, written_file 0 (as_document home_baseline)) ∷ [];
}

-- A Mac out of its network is back in it after a toggle.
toggle_test : (run_repair home_store clean_host).1.wifi_ssid ≡ some "Home"
unfolding run_repair
toggle_test = refl
