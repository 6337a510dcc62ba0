-- ===== src/Guardian/Identity.antt =====
-- scripts/macos/bootmux-network-guardian.py, `prove_identity` and its helpers.
pub mod Policy
use bootmux.Base.{
  ℕ, ◌+◌, Bool, true, false, ◌&&◌, ◌||◌, Option, none, some, List, [], ◌∷◌, ◌++◌, String, ◌<>◌,
  ◌==◌, eq_ℕ, leb, any, filter, length, is_text, truthy, text_in, lower, codes_contain, show_ℕ,
  if◌then◌else◌,
}
use bootmux.Guardian.Address.{iface_in_bootmux_net}
use bootmux.Guardian.Data.{
  UsbDevice, Iface, Route, Service, IdentityResult, bootmux_usb_vid, bootmux_usb_pid,
  bootmux_product, bootmux_serial, bootmux_net, bootmux_peer, bootmux_service_hint, min_signals,
  min_hardware_signals,
}
use bootmux.Guardian.Host.{Host}

abbrev is_number : Option ℕ → ℕ → Bool
is_number none n = false
is_number (some m) n = eq_ℕ m n

-- The three tests on the USB devices.
abbrev pub bootmux_usb_present : List UsbDevice → Bool
bootmux_usb_present = any (λ d. is_number d.vid bootmux_usb_vid && is_number d.pid bootmux_usb_pid)

abbrev or_empty : Option String → String
or_empty none = ""
or_empty (some s) = s

abbrev pub product_match : List UsbDevice → Bool
product_match = any (λ d. text_in bootmux_product (or_empty d.product))

abbrev pub serial_match : List UsbDevice → Bool
serial_match = any (λ d. or_empty d.serial == bootmux_serial)

abbrev when : Bool → String → List String
when true s = s ∷ []
when false s = []

unfoldable pub hw_signals : Bool → Bool → Bool → List String
hw_signals vid_pid product serial =
    when vid_pid "USB VID:PID 0x303a:0x4014"
    ++ (when product "product \"BOOTMUX Bridge Experimental\""
        ++ when serial "serial \"BOOTMUX-R7A-NCM\"")

unfoldable pub service_for_interface : List Service → String → Option String
service_for_interface [] iface_name = none
service_for_interface (svc ∷ services) iface_name =
    let rest = service_for_interface services iface_name in
    if is_text svc.device iface_name then some svc.name else rest

-- `service and BOOTMUX_SERVICE_HINT.lower() in service.lower()`
hinted : Option String → Bool
unfolding lower codes_contain
hinted service = elim (truthy service) [
  | none ↦ false
  | some name ↦ codes_contain (lower name) (lower bootmux_service_hint)
]

abbrev pub via_peer : Route → Bool
via_peer r = is_text r.gateway bootmux_peer

net_signals : String → Option String → List Route → List String
unfolding hinted
net_signals iface_name service routes =
    ("interface " <> iface_name <> " in " <> bootmux_net)
    ∷ (when (any via_peer routes) ("gateway " <> bootmux_peer)
        ++ (when (hinted service) "service description contains BOOTMUX USB Ethernet"
            ++ when (any (λ r. is_text r.interface iface_name) routes)
                ("route through proven interface " <> iface_name)))

-- The part of `prove_identity` behind its single candidate.
judge : Iface → List String → List Service → List Route → IdentityResult
unfolding net_signals service_for_interface
judge iface hw services routes =
    let service = service_for_interface services iface.name in
    let net = net_signals iface.name service routes in
    let total = length hw + length net in
    if leb min_hardware_signals (length hw) && leb min_signals total
    then record {
      proven = true;
      ambiguous = false;
      interface = some iface.name;
      service = service;
      hardware_signals = hw;
      network_signals = net;
      reason = "proven BOOTMUX-owned";
    }
    else record {
      proven = false;
      ambiguous = true;
      interface = some iface.name;
      service = service;
      hardware_signals = hw;
      network_signals = net;
      reason =
          "insufficient signals (hardware="
          <> show_ℕ (length hw)
          <> ", total="
          <> show_ℕ total
          <> "); audit-only";
    }

-- `prove_identity`, on the candidate interfaces.
choose : List Iface → List String → List Service → List Route → IdentityResult
choose [] hw services routes = record {
  proven = false;
  ambiguous = false;
  interface = none;
  service = none;
  hardware_signals = hw;
  network_signals = [];
  reason = "no interface in 10.77.0.0/24";
}
choose (iface ∷ []) hw services routes = judge iface hw services routes
choose (_ ∷ _ ∷ _) hw services routes = record {
  proven = false;
  ambiguous = true;
  interface = none;
  service = none;
  hardware_signals = hw;
  network_signals = "multiple 10.77.0.0/24 interfaces" ∷ [];
  reason = "multiple candidate interfaces; refusing to guess";
}

abbrev pub candidates : List Iface → List Iface
candidates = filter iface_in_bootmux_net

module _ (host : Host) where
  unfoldable pub prove_identity : host.State → IdentityResult
  unfolding choose judge hw_signals
  prove_identity s =
      let usb = host.usb_devices s in
      choose (candidates (host.interfaces s))
        (hw_signals (bootmux_usb_present usb) (product_match usb) (serial_match usb))
        (host.services s) (host.routes s)
