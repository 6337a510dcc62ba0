-- ===== src/Guardian/SystemHost/Wifi.antt =====
-- scripts/macos/bootmux-network-guardian.py, `class SystemHost`: what the observations of
-- Wi-Fi and DNS read in the output of their commands. A netmask has at most eight hexadecimal digits.
use Prim.Native.Char.{code}
use Prim.Native.Nat.{◌%◌}
use bootmux.Base.{
  ℕ, ◌/◌, Bool, true, false, not, ◌&&◌, Option, none, some, List, [], ◌∷◌, String, ◌<>◌, ◌==◌, any,
  codes, codes_start, eq_ℕ, lower, lstrip, strip, show_ℕ, if◌then◌else◌,
}
use bootmux.Base.Lines.{starts, strip_prefix}
use bootmux.Base.Search.{
  search, take_while, drop_while, is_dotted, is_hex, given, consists, int_16, assigned,
}
use bootmux.Guardian.Data.{Ipv4}

-- `inet (...) netmask 0x([0-9a-fA-F]+)`, for a test on the address: both groups.
unfoldable pub inet : (String → Bool) → String → Option (String × String)
unfolding take_while drop_while strip_prefix
inet good s = elim (strip_prefix "inet " s) [
  | none ↦ none
  | some r ↦
      let address = take_while is_dotted r in
      elim (strip_prefix " netmask 0x" (drop_while is_dotted r)) [
        | none ↦ none
        | some t ↦ elim (given (take_while is_hex t)) [
          | none ↦ none
          | some mask ↦ if good address then some (address, mask) else none
        ]
      ]
]

-- `:\s*(On|Off)`: whether it is `On`.
power_word : String → Option Bool
unfolding strip_prefix lstrip
power_word s = elim (strip_prefix ":" s) [
  | none ↦ none
  | some r ↦
      if starts (lstrip r) "On"
      then some true
      else if starts (lstrip r) "Off"
      then some false
      else none
]

unfoldable pub read_power : String → Option Bool
unfolding search power_word
read_power out = search power_word out

-- The text without a line feed at its end.
chop : String → String
chop String.[] = ""
chop (String.◌∷◌ c s) = if s == "" && eq_ℕ (code c) 10 then "" else String.◌∷◌ c (chop s)

ends_in_break : List ℕ → Bool
ends_in_break [] = true
ends_in_break (c ∷ []) = eq_ℕ c 10
ends_in_break (c ∷ d ∷ s) = ends_in_break (d ∷ s)

-- `:\s*(.+)$`, stripped. Where only white space follows the colon, the pattern gives some of it back.
network_name : String → Option String
unfolding chop ends_in_break strip_prefix lstrip strip
network_name s = elim (strip_prefix ":" s) [
  | none ↦ none
  | some r ↦
      if lstrip r == ""
      then (if ends_in_break (codes (chop r)) then none else some "")
      else if any (λ c. eq_ℕ c 10) (codes (chop (lstrip r)))
      then none
      else some (strip (lstrip r))
]

abbrev unless_told : Option String → Option String
unless_told none = none
unless_told (some ssid) =
    if codes_start (lower ssid) (codes "you are not associated") then none else some ssid

unfoldable pub read_ssid : String → Option String
unfolding search network_name lower codes_start
read_ssid out = unless_told (search network_name out)

-- `key\s*=\s*([\d.]+)`
dotted_field : String → String → Option String
unfolding assigned take_while
dotted_field key s = elim (assigned key s) [ none ↦ none | some r ↦ given (take_while is_dotted r) ]

-- `str(ipaddress.IPv4Address(n))`
dotted : ℕ → String
unfolding show_ℕ
dotted n =
    show_ℕ (n / 16777216)
    <> "."
    <> show_ℕ (n / 65536 % 256)
    <> "."
    <> show_ℕ (n / 256 % 256)
    <> "."
    <> show_ℕ (n % 256)

-- What `ipconfig getpacket` tells.
unfoldable pub read_packet : String → Ipv4
unfolding search dotted_field
read_packet out = record {
  mode = some "dhcp";
  address = search (dotted_field "yiaddr") out;
  subnet_mask = search (dotted_field "subnet_mask") out;
  router = search (dotted_field "router") out;
}

abbrev pub no_lease : Ipv4
no_lease = record { mode = some "manual"; address = none; subnet_mask = none; router = none }

-- What `ifconfig` tells where there is no packet.
unfoldable pub read_manual : String → Ipv4
unfolding search inet dotted int_16
read_manual out = elim (search (inet (consists is_dotted)) out) [
  | none ↦ no_lease
  | some (address, mask) ↦ record {
    mode = some "manual";
    address = some address;
    subnet_mask = some (dotted (int_16 mask));
    router = none;
  }
]

abbrev kept_if : Bool → String → List String → List String
kept_if true line lines = line ∷ lines
kept_if false line lines = lines

unfoldable pub servers_in : List String → List String
unfolding strip
servers_in [] = []
servers_in (line ∷ lines) =
    kept_if (consists is_dotted (strip line)) (strip line) (servers_in lines)

unfoldable pub domains_in : List String → List String
unfolding strip lower codes_start
domains_in [] = []
domains_in (line ∷ lines) =
    kept_if (not (strip line == "") && not (codes_start (lower (strip line)) (codes "there aren")))
      (strip line) (domains_in lines)
