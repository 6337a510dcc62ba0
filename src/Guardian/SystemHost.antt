-- ===== src/Guardian/SystemHost.antt =====
-- scripts/macos/bootmux-network-guardian.py, `class SystemHost`: the Mac behind its commands. A
-- command that only looks is taken to leave the Mac as it is, and a time-out is a reply.
pub mod Defaults
pub mod Devices
pub mod Enabled
pub mod RoundTrip
pub mod Tables
pub mod Wifi
use bootmux.Base.{
  ℕ, ℤ, Bool, true, false, not, ◌&&◌, Option, none, List, [], ◌∷◌, map, String, ◌==◌, is_zero,
  strip, if◌then◌else◌,
}
use bootmux.Base.Lines.{split_lines}
use bootmux.Guardian.Data.{UsbDevice, Iface, Route, Service, Ipv4, Dns}
use bootmux.Guardian.Host.{Host, Reply}
use bootmux.Guardian.SystemHost.Devices.{read_devices, read_interfaces}
use bootmux.Guardian.SystemHost.Tables.{read_routes, read_services, read_wifi_device}
use bootmux.Guardian.SystemHost.Wifi.{
  read_power, read_ssid, read_packet, read_manual, no_lease, servers_in, domains_in,
}

-- `_cmd` and `time.time`, of the operating system.
pub record Machine : Type 1 where
  pub Mac : Type 0
  pub cmd : List String → Mac → Reply × Mac
  pub time : Mac → ℕ

-- `[]`, or `None`, unless the command succeeds.
abbrev on_success {ℓ} : {A : Type ℓ} → A → (String → A) → Reply → A
on_success failed read r = if is_zero r.returncode then read r.stdout else failed

module _ (machine : Machine) where
  abbrev look : List String → machine.Mac → Reply
  look argv s = (machine.cmd argv s).0

  unfoldable pub usb_devices : machine.Mac → List UsbDevice
  usb_devices s =
      on_success [] read_devices (look ("ioreg" ∷ "-p" ∷ "IOUSB" ∷ "-l" ∷ "-w" ∷ "0" ∷ []) s)

  unfoldable pub interfaces : machine.Mac → List Iface
  interfaces s = on_success [] read_interfaces (look ("ifconfig" ∷ []) s)

  unfoldable pub routes : machine.Mac → List Route
  routes s = on_success [] read_routes (look ("netstat" ∷ "-rn" ∷ "-f" ∷ "inet" ∷ []) s)

  unfoldable pub services : machine.Mac → List Service
  services s =
      on_success [] read_services (look ("networksetup" ∷ "-listnetworkserviceorder" ∷ []) s)

  unfoldable pub service_order : machine.Mac → List String
  unfolding services
  service_order s = map (λ svc. svc.name) (services s)

  unfoldable pub wifi_device : machine.Mac → Option String
  wifi_device s =
      on_success none read_wifi_device (look ("networksetup" ∷ "-listallhardwareports" ∷ []) s)

  unfoldable pub wifi_power : machine.Mac → String → Option Bool
  wifi_power s device =
      on_success none read_power (look ("networksetup" ∷ "-getairportpower" ∷ device ∷ []) s)

  unfoldable pub wifi_ssid : machine.Mac → String → Option String
  wifi_ssid s device =
      on_success none read_ssid (look ("networksetup" ∷ "-getairportnetwork" ∷ device ∷ []) s)

  unfoldable pub wifi_ipv4 : machine.Mac → String → Ipv4
  unfolding strip
  wifi_ipv4 s device =
      let packet = look ("ipconfig" ∷ "getpacket" ∷ device ∷ []) s in
      if is_zero packet.returncode && not (strip packet.stdout == "")
      then read_packet packet.stdout
      else on_success no_lease read_manual (look ("ifconfig" ∷ device ∷ []) s)

  unfoldable pub dns : machine.Mac → String → Dns
  dns s service = record {
    servers =
        on_success [] (λ out. servers_in (split_lines out))
          (look ("networksetup" ∷ "-getdnsservers" ∷ service ∷ []) s);
    search =
        on_success [] (λ out. domains_in (split_lines out))
          (look ("networksetup" ∷ "-getsearchdomains" ∷ service ∷ []) s);
  }

  unfoldable pub heartbeat : machine.Mac → String → Bool
  heartbeat s peer =
      is_zero ((look ("ping" ∷ "-c" ∷ "1" ∷ "-W" ∷ "1000" ∷ "-t" ∷ "1" ∷ peer ∷ []) s).returncode)

  abbrev pub system_host : Host
  system_host = record {
    State = machine.Mac;
    usb_devices = usb_devices;
    interfaces = interfaces;
    routes = routes;
    services = services;
    service_order = service_order;
    wifi_device = wifi_device;
    wifi_power = wifi_power;
    wifi_ssid = wifi_ssid;
    wifi_ipv4 = wifi_ipv4;
    dns = dns;
    heartbeat = heartbeat;
    now = machine.time;
    run = machine.cmd;
  }
