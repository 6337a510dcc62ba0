-- ===== src/Oracle/Selftest.antt =====
-- scripts/macos/bootmux-usb-identity-oracle.py and bootmux-serial-marker-oracle.py: the fixtures and the
-- checks of the command `selftest`, with its exit code.
use bootmux.Base.{
  ℕ, Bool, true, false, not, Option, none, some, [], ◌∷◌, String, ◌<>◌, all, leb, length,
  if◌then◌else◌,
}
use bootmux.Oracle.Serial
use bootmux.Oracle.Serial.{check_serial_log, missing_required_markers, panic_detected, clean}
use bootmux.Oracle.Usb
use bootmux.Oracle.Usb.{
  Identity, safe_hid_only, network_class_present, classify_bootmux, parse_usb_devices,
}

abbrev pub fixture_safe : String
fixture_safe =
    "\n" <> "USB:\n" <> "\n" <> "    USB 3.1 Bus:\n" <> "\n"
    <> "      Host Controller Driver: AppleT8103USBXHCI\n" <> "\n"
    <> "        BOOTMUX Keyboard Safe:\n" <> "\n" <> "          Product ID: 0x0001\n"
    <> "          Vendor ID: 0x303a\n" <> "          Version: 1.00\n"
    <> "          Serial Number: BOOTMUX-HID-SAFE\n" <> "          Speed: Up to 12 Mb/s\n"
    <> "          Manufacturer: BOOTMUX\n" <> "          Product: BOOTMUX Keyboard Safe\n"
    <> "          Location ID: 0x00100000\n" <> "          Current Available (mA): 500\n"
    <> "          USB Interface Class: HID\n"

abbrev pub fixture_network : String
fixture_network =
    "\n" <> "USB:\n" <> "\n" <> "    USB 3.1 Bus:\n" <> "\n" <> "        BOOTMUX Device:\n" <> "\n"
    <> "          Product ID: 0x0002\n" <> "          Vendor ID: 0x303a\n"
    <> "          Serial Number: BOOTMUX-HID-SAFE\n" <> "          Product: BOOTMUX Device\n"
    <> "          USB Interface Class: CDC-ECM Network\n"

abbrev pub fixture_none : String
fixture_none =
    "\n" <> "USB:\n" <> "\n" <> "    USB 3.1 Bus:\n" <> "\n" <> "        Apple Internal Keyboard:\n"
    <> "\n" <> "          Product ID: 0x0003\n" <> "          Product: Apple Internal Keyboard\n"

abbrev pub fixture_safe_clean : String
fixture_safe_clean =
    "\n" <> "I (312) main_task: Started on CPU0\n" <> "I (312) BOOTMUX: USB descriptors loaded\n"
    <> "I (313) BOOTMUX: BOOTMUX_USB_NETWORK_SAFE_OFF\n"
    <> "I (314) main_task: Calling app_main()\n"

abbrev pub fixture_safe_panic : String
fixture_safe_panic =
    "\n" <> "I (312) BOOTMUX: BOOTMUX_USB_NETWORK_SAFE_OFF\n"
    <> "Guru Meditation Error: Core  0 panic'ed (LoadProhibited)\n"
    <> "Backtrace: 0x400d1234:0x3ffb5678\n"

abbrev pub fixture_safe_missing : String
fixture_safe_missing =
    "\n" <> "I (312) main_task: Started on CPU0\n" <> "I (313) BOOTMUX: USB descriptors loaded\n"

abbrev pub fixture_exp_clean : String
fixture_exp_clean =
    "\n" <> "I (312) BOOTMUX: BOOTMUX_USB_NETIF_DOWN_AT_BOOT_EXPERIMENTAL\n"
    <> "I (313) BOOTMUX: BOOTMUX_USB_NETWORK_NO_DHCP_NO_DEFAULT_ROUTE\n"
    <> "I (314) main_task: Calling app_main()\n"

abbrev is_verdict : Option Identity → (Usb.Verdict → Bool) → Bool
is_verdict none test = false
is_verdict (some i) test = test i.verdict

abbrev is_safe : Usb.Verdict → Bool
is_safe v = elim v [ safe_hid_only ↦ true | _ ↦ false ]

abbrev is_network : Usb.Verdict → Bool
is_network v = elim v [ network_class_present ↦ true | _ ↦ false ]

abbrev holds : Option Identity → (Identity → Bool) → Bool
holds none test = false
holds (some i) test = test i

abbrev is_true : Option Bool → Bool
is_true none = false
is_true (some b) = b

abbrev identify : String → Option Identity
identify text = classify_bootmux (parse_usb_devices text)

abbrev exit_of : Bool → ℕ
exit_of ok = if ok then 0 else 1

unfoldable pub usb_selftest : ℕ
unfolding classify_bootmux parse_usb_devices
usb_selftest =
    let safe = identify fixture_safe in
    let net = identify fixture_network in
    exit_of (
      all (λ passed. passed)
        (is_verdict safe is_safe
          ∷ holds safe (λ i. i.product_is_safe)
          ∷ holds safe (λ i. is_true i.serial_is_safe)
          ∷ holds safe (λ i. i.hid_present)
          ∷ holds safe (λ i. i.network_class_absent)
          ∷ is_verdict net is_network
          ∷ holds net (λ i. not i.network_class_absent)
          ∷ elim (identify fixture_none) [ none ↦ true | some _ ↦ false ]
          ∷ []))

abbrev is_clean : Serial.Verdict → Bool
is_clean v = elim v [ clean ↦ true | _ ↦ false ]

unfoldable pub serial_selftest : ℕ
unfolding check_serial_log
serial_selftest =
    let panic = check_serial_log fixture_safe_panic "safe" in
    exit_of (
      all (λ passed. passed)
        (is_clean (check_serial_log fixture_safe_clean "safe").verdict
          ∷ elim panic.verdict [ panic_detected ↦ true | _ ↦ false ]
          ∷ leb 2 (length panic.panic_markers_found)
          ∷ elim (check_serial_log fixture_safe_missing "safe").verdict [
            | missing_required_markers ↦ true
            | _ ↦ false
          ]
          ∷ is_clean (check_serial_log fixture_exp_clean "experimental").verdict
          ∷ []))
