-- ===== src/Guardian/Address.antt =====
-- scripts/macos/bootmux-network-guardian.py, `_iface_in_bootmux_net`, with what it uses of Python's
-- `ipaddress`: an IPv4 address is four decimal octets of one to three digits, at most 255, with no
-- leading zero. An IPv6 address lies in no IPv4 network, so it reads as a text that is no address.
use bootmux.Base.{
  ℕ, ◌+◌, ◌-◌, ◌*◌, Bool, false, ◌&&◌, Option, none, some, List, [], ◌∷◌, String, codes, leb, eq_ℕ,
  all, any, length, is_empty, not, if◌then◌else◌,
}
use bootmux.Guardian.Data.{Iface}

-- `text.split(".")`, over code points.
unfoldable pub split_dots : List ℕ → List (List ℕ)
split_dots [] = [] ∷ []
split_dots (c ∷ cs) = elim (split_dots cs) [
  | [] ↦ [] ∷ []
  | part ∷ parts ↦ if eq_ℕ c b'.' then [] ∷ part ∷ parts else (c ∷ part) ∷ parts
]

unfoldable pub is_digit : ℕ → Bool
is_digit c = leb b'0' c && leb c b'9'

value : ℕ → List ℕ → ℕ
value acc [] = acc
value acc (c ∷ cs) = value (acc * 10 + (c - b'0')) cs

leading_zero : List ℕ → Bool
leading_zero (c ∷ d ∷ cs) = eq_ℕ c b'0'
leading_zero _ = false

-- `IPv4Address._parse_octet`
parse_octet : List ℕ → Option ℕ
unfolding is_digit value leading_zero
parse_octet cs =
    if not (is_empty cs)
      && all is_digit cs
      && leb (length cs) 3
      && not (leading_zero cs)
      && leb (value 0 cs) 255
    then some (value 0 cs)
    else none

four_octets : List (List ℕ) → Option (ℕ × ℕ × ℕ × ℕ)
four_octets (a ∷ b ∷ c ∷ d ∷ []) = elim (parse_octet a) [
  | none ↦ none
  | some w ↦ elim (parse_octet b) [
    | none ↦ none
    | some x ↦ elim (parse_octet c) [
      | none ↦ none
      | some y ↦ elim (parse_octet d) [ none ↦ none | some z ↦ some (w, x, y, z) ]
    ]
  ]
]
four_octets _ = none

-- `ipaddress.ip_address(text)` where that is an IPv4 address.
ip_address : String → Option (ℕ × ℕ × ℕ × ℕ)
unfolding split_dots four_octets parse_octet
ip_address text = four_octets (split_dots (codes text))

-- `ipaddress.ip_address(text) in ipaddress.ip_network("10.77.0.0/24")`
in_bootmux_net : String → Bool
unfolding ip_address
in_bootmux_net text = elim (ip_address text) [
  | none ↦ false
  | some (w, x, y, z) ↦ eq_ℕ w 10 && eq_ℕ x 77 && eq_ℕ y 0
]

unfoldable pub iface_in_bootmux_net : Iface → Bool
unfolding in_bootmux_net
iface_in_bootmux_net i = any in_bootmux_net i.addresses
