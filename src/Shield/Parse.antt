-- ===== src/Shield/Parse.antt =====
-- scripts/macos/bootmux-attach-shield.py: the parsers of what `networksetup` and `route` print.
use bootmux.Base.{
  Bool, true, false, not, ◌&&◌, ◌||◌, Option, none, some, List, [], ◌∷◌, ◌++◌, String, ◌==◌, any,
  filter, map, strip, text_in, leb, eq_ℕ, if◌then◌else◌,
}
use bootmux.Base.Dict.{put}
use bootmux.Base.Lines.{split_lines, starts, mentions, after_colon, is_blank}
use Prim.Native.Char.{code}

-- `\)\s+(.+)` at the start of a text: the name, stripped.
close_name : String → Option String
unfolding strip
close_name (String.◌∷◌ c (String.◌∷◌ d (String.◌∷◌ e s))) =
    if eq_ℕ (code c) 41 && is_blank (code d) then some (strip (String.◌∷◌ e s)) else none
close_name _ = none

abbrev starts_digit : String → Bool
starts_digit String.[] = false
starts_digit (String.◌∷◌ c s) = leb 48 (code c) && leb (code c) 57

-- `\d+\)\s+(.+)`
numbered : String → Option String
unfolding close_name
numbered String.[] = none
numbered (String.◌∷◌ c s) =
    let more = numbered s in
    if starts_digit (String.◌∷◌ c "") then (if starts_digit s then more else close_name s) else none

abbrev with_marker : Bool → Option String → Option (String × Bool)
with_marker on none = none
with_marker on (some name) = some (name, on)

-- `re.match(r"\((\d+|\*)\)\s+(.+)", line)`: the name, and whether the marker is a number.
service_entry : String → Option (String × Bool)
unfolding numbered
service_entry (String.◌∷◌ c (String.◌∷◌ d s)) =
    if eq_ℕ (code c) 40
    then (if eq_ℕ (code d) 42
        then with_marker false (close_name s)
        else with_marker true (numbered (String.◌∷◌ d s)))
    else none
service_entry _ = none

abbrev Order : Type 0
Order = List String × List (String × Bool)

order_lines : List String → Order → Order
unfolding service_entry put
order_lines [] (order, enabled) = (order, enabled)
order_lines (line ∷ lines) (order, enabled) = order_lines lines (elim (service_entry line) [
  | none ↦ (order, enabled)
  | some (name, on) ↦ (order ++ (name ∷ []), put name on enabled)
])

-- `_parse_service_order`
unfoldable pub parse_service_order : String → List String × List (String × Bool)
unfolding order_lines split_lines
parse_service_order text = order_lines (split_lines text) ([], [])

route_lines : List String → String × String → String × String
unfolding after_colon strip
route_lines [] found = found
route_lines (line ∷ lines) (gw, iface) =
    let l = strip line in
    route_lines lines (
      if starts l "gateway:"
      then (after_colon l, iface)
      else if starts l "interface:"
      then (gw, after_colon l)
      else (gw, iface))

-- `_parse_default_route`
unfoldable pub parse_default_route : String → String × String
unfolding route_lines split_lines
parse_default_route text = route_lines (split_lines text) ("", "")

interface_lines : List String → String → List (String × String) → List (String × String)
unfolding after_colon put strip
interface_lines [] current found = found
interface_lines (line ∷ lines) current found =
    let l = strip line in
    interface_lines lines (if starts l "Hardware Port:" then after_colon l else current) (
      if starts l "Hardware Port:"
      then found
      else if starts l "Device:" && not (current == "")
      then put (after_colon l) current found
      else found)

-- `_parse_interfaces`
unfoldable pub parse_interfaces : String → List (String × String)
unfolding interface_lines split_lines
parse_interfaces text = interface_lines (split_lines text) "" []

-- The values of a manual configuration, a dict.
pub record Manual : Type 0 where
  pub ip : Option String
  pub subnet : Option String
  pub router : Option String

abbrev pub no_manual : Manual
no_manual = record { ip = none; subnet = none; router = none }

manual_line : String → Manual → Manual
unfolding after_colon
manual_line l m =
    if starts l "IP address:"
    then record m { ip = some (after_colon l) }
    else if starts l "Subnet mask:"
    then record m { subnet = some (after_colon l) }
    else if starts l "Router:"
    then record m { router = some (after_colon l) }
    else m

ipv4_lines : List String → String × Option Manual → String × Option Manual
unfolding manual_line strip
ipv4_lines [] found = found
ipv4_lines (line ∷ lines) (mode, manual) =
    let l = strip line in
    ipv4_lines lines (
      if starts l "DHCP Configuration:"
      then ("DHCP", manual)
      else if starts l "Manual Configuration:"
      then ("Manual", some no_manual)
      else (mode, elim manual [ none ↦ none | some m ↦ some (manual_line l m) ]))

-- `_parse_ipv4_info`
unfoldable pub parse_ipv4_info : String → String × Option Manual
unfolding ipv4_lines split_lines
parse_ipv4_info text = ipv4_lines (split_lines text) ("DHCP", none)

ipv6_lines : List String → String
unfolding after_colon strip
ipv6_lines [] = "Automatic"
ipv6_lines (line ∷ lines) =
    let rest = ipv6_lines lines in
    if starts (strip line) "IPv6:" then after_colon (strip line) else rest

-- `_parse_ipv6_mode`
unfoldable pub parse_ipv6_mode : String → String
unfolding ipv6_lines split_lines
parse_ipv6_mode text = ipv6_lines (split_lines text)

-- The lines that both parsers of lists keep.
listed : String → List String
unfolding strip split_lines
listed text =
    map strip (filter (λ l. not (strip l == "") && not (starts l "There")) (split_lines text))

-- `_parse_dns_servers`
unfoldable pub parse_dns_servers : String → List String × Bool
unfolding listed
parse_dns_servers text =
    if text_in "aren't any DNS Servers set" text || text_in "There aren't any" text
    then ([], true)
    else (listed text, false)

-- `_parse_search_domains`
unfoldable pub parse_search_domains : String → List String × Bool
unfolding listed
parse_search_domains text =
    if text_in "aren't any Search Domains set" text || text_in "There aren't any" text
    then ([], true)
    else (listed text, false)

abbrev virtual_words : List String
virtual_words = "tailscale" ∷ "vpn" ∷ "utun" ∷ "loopback" ∷ "awdl" ∷ "bridge" ∷ "thunderbolt" ∷ []

-- `_is_virtual_service`
unfoldable pub is_virtual_service : String → Bool
is_virtual_service name = any (λ word. mentions word name) virtual_words
