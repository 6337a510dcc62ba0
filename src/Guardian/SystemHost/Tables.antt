-- ===== src/Guardian/SystemHost/Tables.antt =====
-- scripts/macos/bootmux-network-guardian.py, `class SystemHost`: what `routes`, `services`
-- and `wifi_device` read in the tables of netstat and networksetup.

use bootmux.Base.{
  ℕ, Bool, true, false, not, ◌||◌, Option, none, some, List, [], ◌∷◌, ◌++◌, String, ◌==◌, eq_ℕ,
  strip, if◌then◌else◌,
}
use bootmux.Base.Lines.{split_lines, split_words, is_blank, strip_prefix}
use bootmux.Base.Search.{
  search, take_while, drop_while, before_last, is_number, is_dotted, given, consists, int, blanks,
  then_blanks,
}
use bootmux.Guardian.Data.{Route, Service}

abbrev not_blank : ℕ → Bool
not_blank c = not (is_blank c)

-- `^[\d./]+$`
abbrev pub is_numeric : ℕ → Bool
is_numeric c = is_dotted c || eq_ℕ c 47

-- One line of the table, as words.
unfoldable pub route_row : List String → List Route
route_row (dest ∷ gateway ∷ flags ∷ iface ∷ more) =
    if dest == "Destination" || dest == "Routing"
    then []
    else if consists is_numeric dest
    then (record {
      destination = some dest;
      gateway = some gateway;
      flags = flags;
      interface = some iface;
    })
      ∷ []
    else []
route_row _ = []

unfoldable pub rows_in : List String → List Route
unfolding route_row split_words
rows_in [] = []
rows_in (line ∷ lines) = route_row (split_words line) ++ rows_in lines

unfoldable pub read_routes : String → List Route
unfolding rows_in split_lines
read_routes out = rows_in (split_lines out)

-- `^\((\d+)\)\s+(.*)$`: the order and the name.
unfoldable pub service_head : String → Option (ℕ × String)
unfolding strip_prefix take_while drop_while int blanks
service_head line = elim (strip_prefix "(" line) [
  | none ↦ none
  | some r ↦ elim (given (take_while is_number r)) [
    | none ↦ none
    | some n ↦ elim (then_blanks (strip_prefix ")" (drop_while is_number r))) [
      | none ↦ none
      | some name ↦ some (int n, name)
    ]
  ]
]

-- `Device:\s+(\S+)\)`
unfoldable pub service_device : String → Option String
unfolding strip_prefix take_while blanks before_last
service_device s = elim (then_blanks (strip_prefix "Device:" s)) [
  | none ↦ none
  | some r ↦ elim (before_last 41 (take_while not_blank r)) [ none ↦ none | some d ↦ given d ]
]

-- A character of `"* "`.
abbrev is_star : ℕ → Bool
is_star c = eq_ℕ c 42 || eq_ℕ c 32

unfoldable pub new_service : ℕ → String → Service
unfolding strip drop_while
new_service order name = record {
  name = strip (drop_while is_star name);
  device = some "";
  enabled = true;
  order = order;
}

abbrev pub flush_service : Option Service → List Service
flush_service none = []
flush_service (some svc) = svc ∷ []

abbrev pub at_device : Service → Option String → Service
at_device svc none = svc
at_device svc (some d) = record svc { device = some d }

unfoldable pub on_device : String → Option Service → Option Service
unfolding search service_device
on_device line none = none
on_device line (some svc) = some (at_device svc (search service_device line))

-- The loop over the lines, from the service that is being read. Each is marked enabled at the end.
unfoldable pub services_in : Option Service → List String → List Service
unfolding service_head on_device new_service
services_in current [] = flush_service current
services_in current (line ∷ lines) = elim (service_head line) [
  | some (order, name) ↦ flush_service current ++ services_in (some (new_service order name)) lines
  | none ↦ services_in (on_device line current) lines
]

unfoldable pub read_services : String → List Service
unfolding services_in split_lines
read_services out = services_in none (split_lines out)

-- `^Device:\s+(\S+)` at the line behind the port's.
device_line : List String → Option String
unfolding blanks strip_prefix take_while
device_line [] = none
device_line (line ∷ lines) = elim (then_blanks (strip_prefix "Device:" line)) [
  | none ↦ none
  | some r ↦ given (take_while not_blank r)
]

-- `^Hardware Port:\s+(Wi-Fi|AirPort)$`
wifi_port : String → Bool
unfolding blanks strip_prefix
wifi_port line = elim (then_blanks (strip_prefix "Hardware Port:" line)) [
  | none ↦ false
  | some name ↦ name == "Wi-Fi" || name == "AirPort"
]

port_in : List String → Option String
unfolding device_line wifi_port
port_in [] = none
port_in (line ∷ lines) =
    let rest = port_in lines in
    if wifi_port line then (elim (device_line lines) [ some d ↦ some d | none ↦ rest ]) else rest

unfoldable pub read_wifi_device : String → Option String
unfolding port_in split_lines
read_wifi_device out = port_in (split_lines out)
