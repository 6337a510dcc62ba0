-- ===== src/Contract/Tests.antt =====
-- Runs of the contract checks.
use bootmux.Base.{◌≡◌, refl, [], ◌∷◌, String, codes_contain, codes_start}
use bootmux.Base.Lines.{strip_prefix}
use bootmux.Base.Search.{search}
use bootmux.Contract.{function_body, normalize_prose}
use bootmux.Contract.Balanced.{depth_after, function_body-balanced}
use bootmux.Contract.Profiles.{
  named, r7c_readme_errors, r7c_safe_default_errors, r7c_experimental_errors,
}

abbrev source : String
source =
    "int a(void) { return 0; }\nbool mg_should_open(void)\n{ if (x) { y(); } return z; }\nvoid b(void) {}\n"

function_body-balanced_example :
    function_body (named "bool mg_should_open") source ≡ "{ if (x) { y(); } return z; }"
unfolding named search strip_prefix depth_after
function_body-balanced_example =
    function_body-balanced (named "bool mg_should_open") source "(void)\n"
      " if (x) { y(); } return z; " "\nvoid b(void) {}\n" refl refl refl

normalizes :
    normalize_prose "It is **USB\n HID-only** and `does` *not*  route."
    ≡ "It is USB HID-only and does not route."
unfolding normalize_prose
normalizes = refl

reports :
    (r7c_readme_errors
        "USB HID-only, must not enumerate a USB\nEthernet interface, does not run a DHCP server, no configured gateway"
      ≡ "router-spike README lost host-network-safe contract phrase: 'does not provide DNS'" ∷ [])
    × (r7c_safe_default_errors
          "CONFIG_TINYUSB_NET_MODE_NONE=y\nCONFIG_LWIP_IP_FORWARD=y\n# CONFIG_BOOTMUX_USB_NETWORK_EXPERIMENTAL is not set\n"
          "BOOTMUX Keyboard Safe BOOTMUX-HID-SAFE" "BOOTMUX_USB_NETWORK_SAFE_OFF"
        ≡ "safe sdkconfig unexpectedly enables CONFIG_LWIP_IP_FORWARD=y" ∷ [])
    × (r7c_experimental_errors
          "BOOTMUX_USB_NETWORK_NO_DHCP_NO_DEFAULT_ROUTE .gw = { .addr = 0 } BOOTMUX_USB_NETIF_DOWN_AT_BOOT_EXPERIMENTAL"
          "CONFIG_BOOTMUX_USB_NETWORK_EXPERIMENTAL=y"
          "static void wifi_task(void) { if (IP_EVENT_STA_GOT_IP) { bootmux_usb_router_start(); } }"
        ≡ "IP_EVENT_STA_GOT_IP no longer reaches the reconciler"
          ∷ "network activation happens directly from IP_EVENT_STA_GOT_IP outside the reconciler"
          ∷ [])
unfolding r7c_readme_errors r7c_safe_default_errors r7c_experimental_errors codes_contain
    codes_start
reports = (refl, refl, refl)
