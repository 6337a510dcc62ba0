-- ===== src/Oracle/Tests.antt =====
-- Runs of the oracles.
use bootmux.Base.{
  ◌≡◌, ◌≢◌, ◌↔◌, refl, true, false, not, ◌&&◌, none, some, [], ◌∷◌, ◌<>◌, pos, filter, is_zero,
  is_empty, lower, codes_contain, codes_start, first_chars,
}
use bootmux.Guardian.Baseline.{capture_baseline}
use bootmux.Guardian.Identity.{service_for_interface}
use bootmux.Guardian.Plan.Order.{ordered_names}
use bootmux.Guardian.FakeHost.{Fake, fake_host, fake_run, lookup_dns}
use bootmux.Oracle.Physical.{Snapshot, sanitize_snapshot, ip_class}
use bootmux.Oracle.Physical.Compare.{Saved, compare}
use bootmux.Oracle.Physical.Unchanged.{Unchanged, compare-zero_iff}
use bootmux.Oracle.Selftest.{usb_selftest, serial_selftest, fixture_safe, fixture_network}
use bootmux.Oracle.Usb
use bootmux.Oracle.Usb.{Identity, live, parse_usb_devices, classify_bootmux, is_bootmux, ambiguous}
use bootmux.Oracle.Usb.Hid.{classify_bootmux-decided}
use bootmux.Oracle.Usb.Live.{FirstIsSafe, live-zero_iff}

usb_selftest_passes : usb_selftest ≡ 0
unfolding usb_selftest
usb_selftest_passes = refl

serial_selftest_passes : serial_selftest ≡ 0
unfolding serial_selftest codes_contain codes_start lower
serial_selftest_passes = refl

-- A bridge with a network class is not seen behind a safe keyboard.
second_unseen : live (pos 0) (fixture_safe <> fixture_network) ≡ 0
unfolding live
second_unseen = refl

first_seen : live (pos 0) (fixture_network <> fixture_safe) ≡ 1
unfolding live
first_seen = refl

live-zero_iff_example :
    (live (pos 0) fixture_safe ≡ 0)
    ↔ ((is_zero (pos 0) ≡ true) × FirstIsSafe (filter is_bootmux (parse_usb_devices fixture_safe)))
live-zero_iff_example = live-zero_iff (pos 0) fixture_safe

abbrev safe_identity : Identity
safe_identity = record {
  product_is_safe = true;
  serial_is_safe = some true;
  hid_present = true;
  network_class_absent = true;
  network_markers_found = [];
  verdict = Usb.safe_hid_only;
}

classify_bootmux-decided_example : safe_identity.verdict ≢ ambiguous
unfolding classify_bootmux parse_usb_devices
classify_bootmux-decided_example =
    classify_bootmux-decided (parse_usb_devices fixture_safe) safe_identity refl

-- A Mac at home, whose table has a route through the bridge's gateway.
abbrev home_mac : Fake
home_mac = record {
  usb = [];
  ifaces = [];
  routes =
      (record {
        destination = some "default";
        gateway = some "10.77.0.1";
        flags = "UGS";
        interface = some "en7";
      })
      ∷ [];
  services = (record { name = "Wi-Fi"; device = some "en0"; enabled = true; order = 1 }) ∷ [];
  wifi_device = some "en0";
  wifi_power = some true;
  wifi_ssid = some "Home";
  wifi_ipv4 = record {
    mode = some "dhcp";
    address = some "192.168.1.50";
    subnet_mask = none;
    router = none;
  };
  dns = ("Wi-Fi", record { servers = "192.168.1.1" ∷ []; search = [] }) ∷ [];
  heartbeat = false;
  clock = 5000;
  commands = [];
  run_results = [];
}

abbrev saved : Saved
saved = record {
  power = some (some true);
  ssid_token = some "tok:Home";
  ipv4_mode = some (some "dhcp");
  dns_server_count = some 1;
  dns_server_tokens = some ("tok:192.168.1.1" ∷ []);
  default_interface = some none;
  default_gateway_class = some "<none>";
  network_service_order = some ("Wi-Fi" ∷ []);
  service_enabled_states = some (("Wi-Fi", true) ∷ []);
}

abbrev home_view : Snapshot
home_view = sanitize_snapshot fake_host (λ s. s) home_mac

compare-zero_iff_example :
    (compare fake_host (λ s. s) (some saved) true home_mac ≡ 0)
    ↔ (Unchanged saved home_view × ((true && not (is_empty home_view.bootmux_services)) ≡ false))
compare-zero_iff_example = compare-zero_iff fake_host (λ s. s) saved true home_mac

-- The route through the bridge is not seen.
route_unseen : compare fake_host (λ s. s) (some saved) true home_mac ≡ 0
unfolding compare capture_baseline first_chars service_for_interface lookup_dns fake_run
    ordered_names codes_contain lower
route_unseen = refl

classes :
    (ip_class (some "192.168.1.1") ≡ "192.168.x.x(private)")
    × (ip_class (some "172.20.0.1") ≡ "172.16-31.x.x(private)")
    × (ip_class (some "172.32.0.1") ≡ "<ip>")
    × (ip_class (some "fe80::1") ≡ "<ip>")
unfolding ip_class
classes = (refl, refl, refl, refl)
