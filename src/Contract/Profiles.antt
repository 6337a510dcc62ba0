-- ===== src/Contract/Profiles.antt =====
-- scripts/check-contract-sync.py: `r7c_readme_errors`, `r7c_safe_default_errors` and
-- `r7c_experimental_errors`, each with the messages that it gives.
use Prim.Native.Char.{code}
use bootmux.Base.{
  ℕ, Bool, true, false, not, ◌&&◌, ◌||◌, Option, none, some, List, [], ◌∷◌, ◌++◌, String, ◌<>◌,
  eq_ℕ, leb, if◌then◌else◌,
}
use bootmux.Base.Lines.{strip_prefix}
use bootmux.Base.Search.{search, is_number}
use bootmux.Contract.{has, prose_contains, function_body}

abbrev pub error_if : Bool → String → List String
error_if true message = message ∷ []
error_if false message = []

readme_phrases : List String → String → List String
unfolding prose_contains
readme_phrases [] readme = []
readme_phrases (phrase ∷ phrases) readme =
    error_if (not (prose_contains readme phrase))
      ("router-spike README lost host-network-safe contract phrase: '" <> phrase <> "'")
    ++ readme_phrases phrases readme

unfoldable pub r7c_readme_errors : String → List String
unfolding readme_phrases
r7c_readme_errors readme =
    readme_phrases
      ("USB HID-only" ∷ "must not enumerate a USB Ethernet interface" ∷ "does not run a DHCP server"
        ∷ "no configured gateway" ∷ "does not provide DNS" ∷ [])
      readme

-- The loop over the forbidden settings.
forbidden_settings : List String → String → List String
forbidden_settings [] sdkconfig = []
forbidden_settings (f ∷ fs) sdkconfig =
    error_if (has sdkconfig f) ("safe sdkconfig unexpectedly enables " <> f)
    ++ forbidden_settings fs sdkconfig

-- `re.search(r"head.*?tail", text, re.S)`
followed : String → String → String → Bool
unfolding search strip_prefix
followed head tail text = elim (search (strip_prefix head) text) [
  | none ↦ false
  | some rest ↦ has rest tail
]

unfoldable pub r7c_safe_default_errors : String → String → String → List String
unfolding forbidden_settings followed
r7c_safe_default_errors sdkconfig descriptors usb_router =
    error_if (not (has sdkconfig "CONFIG_TINYUSB_NET_MODE_NONE=y"))
      "safe sdkconfig no longer selects TinyUSB network mode None"
    ++ (forbidden_settings
          ("CONFIG_TINYUSB_NET_MODE_NCM=y" ∷ "CONFIG_TINYUSB_NET_MODE_ECM_RNDIS=y"
            ∷ "CONFIG_LWIP_IP_FORWARD=y" ∷ "CONFIG_LWIP_IPV4_NAPT=y" ∷ [])
          sdkconfig
        ++ (error_if (not (has sdkconfig "# CONFIG_BOOTMUX_USB_NETWORK_EXPERIMENTAL is not set"))
              "safe sdkconfig no longer keeps USB networking default-off"
            ++ (error_if (followed "config BOOTMUX_USB_NETWORK_EXPERIMENTAL" "default y" sdkconfig)
                  "CONFIG_BOOTMUX_USB_NETWORK_EXPERIMENTAL became default-on"
                ++ (error_if
                      (not (has descriptors "BOOTMUX Keyboard Safe")
                        || not (has descriptors "BOOTMUX-HID-SAFE"))
                      "safe USB descriptor lost the distinct HID-only identity"
                    ++ error_if (not (has usb_router "BOOTMUX_USB_NETWORK_SAFE_OFF"))
                        "safe marker BOOTMUX_USB_NETWORK_SAFE_OFF disappeared"))))

abbrev is_word : ℕ → Bool
is_word c = is_number c || leb 65 c && leb c 90 || leb 97 c && leb c 122 || eq_ℕ c 95

-- `\b` behind a word character.
at_boundary : String → Option String
at_boundary String.[] = some ""
at_boundary (String.◌∷◌ c s) = if is_word (code c) then none else some (String.◌∷◌ c s)

-- A name and `\b`.
unfoldable pub named : String → String → Option String
unfolding strip_prefix at_boundary
named name s = elim (strip_prefix name s) [ none ↦ none | some rest ↦ at_boundary rest ]

-- What `wifi_task` does behind its first mention of the event.
branch_errors : Option String → List String
branch_errors none = []
branch_errors (some branch) =
    error_if (not (has branch "reconcile_management_path"))
      "IP_EVENT_STA_GOT_IP no longer reaches the reconciler"
    ++ error_if (has branch "bootmux_usb_router_start")
        "network activation happens directly from IP_EVENT_STA_GOT_IP outside the reconciler"

unfoldable pub r7c_experimental_errors : String → String → String → List String
unfolding branch_errors search strip_prefix function_body named
r7c_experimental_errors usb_router exp_sdkconfig runtime_c =
    error_if (has usb_router "ESP_NETIF_DHCP_SERVER") "USB experiment reintroduced a DHCP server"
    ++ (error_if
          (not (has usb_router ".gw = { .addr = 0 }")
            || not (has usb_router "BOOTMUX_USB_NETWORK_NO_DHCP_NO_DEFAULT_ROUTE"))
          "USB experiment can again advertise a gateway/default route"
        ++ (error_if (not (has usb_router "BOOTMUX_USB_NETIF_DOWN_AT_BOOT_EXPERIMENTAL"))
              "USB netif is no longer documented DOWN at boot"
            ++ (error_if (not (has exp_sdkconfig "CONFIG_BOOTMUX_USB_NETWORK_EXPERIMENTAL=y"))
                  "explicit USB-network experiment profile lost its opt-in flag"
                ++ branch_errors (
                    search (strip_prefix "IP_EVENT_STA_GOT_IP")
                      (function_body (named "static void wifi_task") runtime_c)))))
