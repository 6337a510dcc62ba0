-- ===== src/Guardian/Tests/RealMac.antt =====
-- Runs of `SystemHost` on the output of a Mac with a bridge attached.
use bootmux.Base.{
  ◌≡◌, ◌≢◌, refl, ℕ, ◌-◌, length, codes, true, false, none, some, List, [], ◌∷◌, String, ◌==◌, pos,
  map, filter, join, lower, codes_contain, codes_start, if◌then◌else◌,
}
use bootmux.Base.Lines.Printed.{print_lines, indented}
use bootmux.Guardian.Address.{iface_in_bootmux_net, is_digit, split_dots}
use bootmux.Guardian.Tests.{home_store}
use bootmux.Guardian.Plan.Service.{plan_r2_service, disable_command, enabled_of}
use bootmux.Guardian.Verify.{verify}
use bootmux.Guardian.Commands.{capture_refused, cmd_repair_now}
use bootmux.Guardian.Data.{Service, IdentityResult}
use bootmux.Guardian.Host.{Reply}
use bootmux.Guardian.Identity.{prove_identity, hw_signals, service_for_interface}
use bootmux.Guardian.Store.{ok}
use bootmux.Guardian.SystemHost.{Machine, system_host, routes, services, usb_devices, interfaces}
use bootmux.Guardian.SystemHost.Defaults.{cmd_repair_now-never_zero}
use bootmux.Guardian.SystemHost.Devices.{read_devices, read_interfaces}
use bootmux.Guardian.SystemHost.Enabled.{service-always_enabled}
use bootmux.Guardian.SystemHost.RoundTrip.{
  Row, netstat, print_row, numeric, as_route, read_routes-netstat,
}
use bootmux.Base.Search.{search}
use bootmux.Guardian.SystemHost.Tables.{
  services_in, service_head, service_device, read_routes, read_services, read_wifi_device,
}
use bootmux.Guardian.SystemHost.Wifi.{read_power, read_ssid, read_packet, read_manual}

abbrev ioreg_text : String
ioreg_text =
    "+-o Root  <class IORegistryEntry>\n  +-o BOOTMUX Bridge@00100000  <class IOUSBHostDevice>\n    {\n      \"idProduct\" = 16404\n      \"idVendor\" = 12346\n      \"USB Product Name\" = \"BOOTMUX Bridge Experimental\"\n      \"USB Serial Number\" = \"BOOTMUX-R7A-NCM\"\n    }\n"

reads_devices :
    read_devices ioreg_text
    ≡ (record {
      vid = some 0x303a;
      pid = some 0x4014;
      product = some "BOOTMUX Bridge Experimental";
      serial = some "BOOTMUX-R7A-NCM";
    })
      ∷ []
unfolding read_devices
reads_devices = refl

abbrev ifconfig_text : String
ifconfig_text =
    "lo0: flags=8049<UP,LOOPBACK> mtu 16384\n\tinet 127.0.0.1 netmask 0xff000000\nen7: flags=8863<UP> mtu 1500\n\tether 02:00:00:00:00:01\n\tinet 10.77.0.2 netmask 0xffffff00 broadcast 10.77.0.255\n\tstatus: active\n"

reads_interfaces :
    read_interfaces ifconfig_text
    ≡ record { name = "lo0"; addresses = "127.0.0.1" ∷ [] }
      ∷ record { name = "en7"; addresses = "10.77.0.2" ∷ [] }
      ∷ []
unfolding read_interfaces
reads_interfaces = refl

abbrev order_text : String
order_text =
    "An asterisk (*) denotes that a network service is disabled.\n(1) Wi-Fi\n(Hardware Port: Wi-Fi, Device: en0)\n\n(2) BOOTMUX USB Ethernet\n(Hardware Port: BOOTMUX USB Ethernet, Device: en7)\n\n"

abbrev service : String → String → ℕ → Service
service name device order = record {
  name = name;
  device = some device;
  enabled = true;
  order = order;
}

abbrev two_services : List Service
two_services = service "Wi-Fi" "en0" 1 ∷ service "BOOTMUX USB Ethernet" "en7" 2 ∷ []

reads_services : read_services order_text ≡ two_services
unfolding read_services
reads_services = refl

-- A disabled service is printed with a star for its number. It is no head, and the device of its
-- second line goes to the service before it.
reads_disabled :
    read_services
      "(1) Wi-Fi\n(Hardware Port: Wi-Fi, Device: en0)\n\n(*) BOOTMUX USB Ethernet\n(Hardware Port: BOOTMUX USB Ethernet, Device: en7)\n"
    ≡ service "Wi-Fi" "en7" 1 ∷ []
unfolding read_services
reads_disabled = refl

reads_wifi_device :
    read_wifi_device "\nHardware Port: USB LAN\nDevice: en7\n\nHardware Port: Wi-Fi\nDevice: en0\n"
    ≡ some "en0"
unfolding read_wifi_device
reads_wifi_device = refl

reads_power : read_power "Wi-Fi Power (en0): Off\n" ≡ some false
unfolding read_power codes_start
reads_power = refl

reads_ssid : read_ssid "Current Wi-Fi Network: Home: Net \n" ≡ some "Home: Net"
unfolding read_ssid
reads_ssid = refl

reads_packet :
    read_packet
      "yiaddr = 192.168.1.50\nsubnet_mask (ip): 255.255.255.0\nrouter (ip_mult): {192.168.1.1}\n"
    ≡ record {
      mode = some "dhcp";
      address = some "192.168.1.50";
      subnet_mask = none;
      router = none;
    }
unfolding read_packet
reads_packet = refl

reads_manual : read_manual ifconfig_text ≡ record {
  mode = some "manual";
  address = some "127.0.0.1";
  subnet_mask = some "255.0.0.0";
  router = none;
}
unfolding read_manual
reads_manual = refl

-- A Mac with one home route and one through the bridge.
abbrev size : String → ℕ
size s = length (codes s)

abbrev row : String → String → String → String → Row
row d g f i = record {
  dest = d;
  gateway = g;
  flags = f;
  netif = i;
  expire = "";
  after_dest = 18 - size d;
  after_gateway = 18 - size g;
  after_flags = 18 - size f;
  after_netif = 3;
}

abbrev table : List Row
table =
    row "default" "192.168.1.1" "UGScg" "en0"
    ∷ row "default" "10.77.0.1" "UGScIg" "en7"
    ∷ row "10.77/24" "link#12" "UCS" "en7"
    ∷ []

read_routes-netstat_example : read_routes (netstat table) ≡ map as_route (filter numeric table)
read_routes-netstat_example = read_routes-netstat table (
  (refl, refl, refl, refl, refl),
  ((refl, refl, refl, refl, refl), ((refl, refl, refl, refl, refl), tt)),
)

reads_routes :
    map as_route (filter numeric table) ≡ as_route (row "10.77/24" "link#12" "UCS" "en7") ∷ []
reads_routes = refl

abbrev answer : String → Reply
answer out = record { returncode = pos 0; stdout = out; stderr = "" }

abbrev reply_to : String → List String → Reply
reply_to order argv =
    let c = join " " argv in
    if c == "ioreg -p IOUSB -l -w 0"
    then answer ioreg_text
    else if c == "ifconfig"
    then answer ifconfig_text
    else if c == "networksetup -listnetworkserviceorder"
    then answer order
    else if c == "netstat -rn -f inet"
    then answer (netstat table)
    else if c == "networksetup -listallhardwareports"
    then answer "Hardware Port: Wi-Fi\nDevice: en0\n"
    else answer ""

-- Every command succeeds and leaves this Mac as it is.
abbrev mac : String → Machine
mac order = record { Mac = Unit {0}; cmd = λ argv s. (reply_to order argv, s); time = λ _. 0 }

cmd_repair_now-never_zero_example :
    (cmd_repair_now (system_host (mac order_text)) home_store tt).0
    ≢ ok (capture_refused (prove_identity (system_host (mac order_text)) tt), 0)
cmd_repair_now-never_zero_example =
    cmd_repair_now-never_zero (mac order_text) home_store tt
      (capture_refused (prove_identity (system_host (mac order_text)) tt))

abbrev bridge_identity : IdentityResult
bridge_identity = prove_identity (system_host (mac order_text)) tt

service-always_enabled_example :
    ((plan_r2_service (system_host (mac order_text)) bridge_identity tt).commands
      ≡ disable_command "BOOTMUX USB Ethernet" ∷ [])
    × ((verify (system_host (mac order_text)) bridge_identity none tt).bootmux_service_disabled
        ≡ false)
unfolding prove_identity usb_devices interfaces routes services read_devices read_interfaces
    read_services read_routes iface_in_bootmux_net split_dots is_digit service_for_interface
    hw_signals lower codes_contain join netstat print_lines print_row indented enabled_of
service-always_enabled_example =
    service-always_enabled (mac order_text) bridge_identity none tt "BOOTMUX USB Ethernet" refl

-- Where the bridge's service is turned off already, its device is read as that of Wi-Fi, and R2
-- plans to turn Wi-Fi off.
abbrev disabled_text : String
disabled_text =
    "(1) Wi-Fi\n(Hardware Port: Wi-Fi, Device: en0)\n\n(*) BOOTMUX USB Ethernet\n(Hardware Port: BOOTMUX USB Ethernet, Device: en7)\n"

abbrev disabled_identity : IdentityResult
disabled_identity = prove_identity (system_host (mac disabled_text)) tt

turns_off_wifi :
    (disabled_identity.proven ≡ true)
    × ((plan_r2_service (system_host (mac disabled_text)) disabled_identity tt).commands
        ≡ disable_command "Wi-Fi" ∷ [])
unfolding plan_r2_service prove_identity usb_devices interfaces routes services read_devices
    read_interfaces read_services read_routes iface_in_bootmux_net split_dots is_digit
    service_for_interface hw_signals lower codes_contain join netstat print_lines print_row indented
    enabled_of
turns_off_wifi = (refl, refl)

abbrev port_line : String
port_line = "(Hardware Port: BOOTMUX USB Ethernet, Device: en7)"

-- The device of a disabled service is taken for that of the service before it.
reads_starred :
    services_in (some (service "Wi-Fi" "en0" 1)) ("(*) BOOTMUX USB Ethernet" ∷ port_line ∷ [])
    ≡ services_in (some (service "Wi-Fi" "en7" 1)) []
unfolding service_head service_device search services_in
reads_starred = refl
