-- ===== src/Shield/Quarantine.antt =====
-- scripts/macos/bootmux-attach-shield.py: the services of the device and its routes, the packet
-- filter's anchor, and the pinned routes.
pub mod Pin
use Prim.Native.Char.{code}
use bootmux.Base.{
  ℕ, Bool, true, false, not, ◌&&◌, ◌||◌, Option, none, some, List, [], ◌∷◌, ◌++◌, map, filter,
  String, ◌==◌, ◌<>◌, pos, lower, codes, codes_contain, text_in, contains, leb, eq_ℕ, any, is_empty,
  if◌then◌else◌,
}
use bootmux.Base.Dict.{get_or}
use bootmux.Shield.Baseline.{Baseline, given}
use bootmux.Shield.Host.{Reply, ok, Host, ◌>>=◌, ◌>>◌, pure, for_each}
use bootmux.Shield.Journal.{note, service_command}
use bootmux.Shield.Parse.{parse_default_route}
use bootmux.Base.Lines.{split_lines, split_words, mentions}
use bootmux.Shield.World.{
  PreValue, empty_pre, World, Shield, on_mac, exec, do_exec, service_disable, route_delete,
  order_set,
}

-- `QuarantineResult`: the services found and disabled, the routes removed, whether the classification
-- is GREEN.
pub record QuarantineResult : Type 0 where
  pub bootmux_services_found : List String
  pub services_disabled : List String
  pub routes_removed : List String
  pub wifi_first : Bool
  pub default_route_on_wifi : Bool
  pub classification : String

abbrev bootmux_subnet_address : String
bootmux_subnet_address = "10.77.0.0"

-- `a.lower() in b.lower() or b.lower() in a.lower()`
abbrev pub overlap : String → String → Bool
overlap a b = codes_contain (lower b) (lower a) || codes_contain (lower a) (lower b)

abbrev is_product : String → Bool
is_product svc =
    mentions "bootmux" svc || mentions "ncm" svc || mentions "ecm" svc || mentions "rndis" svc

abbrev is_word : ℕ → Bool
is_word c = leb 48 c && leb c 57 || leb 65 c && leb c 90 || leb 97 c && leb c 122 || eq_ℕ c 95

word_before_colon : String → Option String
word_before_colon String.[] = none
word_before_colon (String.◌∷◌ c s) =
    let rest = word_before_colon s in
    if eq_ℕ (code c) 58
    then some ""
    else if is_word (code c)
    then (elim rest [ none ↦ none | some w ↦ some (String.◌∷◌ c w) ])
    else none

-- `re.match(r"^(\w+):", line)`
header_of : String → Option String
unfolding word_before_colon
header_of line = elim (word_before_colon line) [
  | none ↦ none
  | some w ↦ if w == "" then none else some w
]

abbrev or_else : String → Option String → String
or_else default none = default
or_else default (some s) = s

-- The interface whose block has the first line with an address of the subnet.
interface_with : String → List String → String
unfolding header_of
interface_with current [] = ""
interface_with current (line ∷ lines) =
    let name = or_else current (header_of line) in
    let rest = interface_with name lines in
    if text_in "10.77." line && given name then name else rest

-- `if svc not in candidates: candidates.append(svc)`, for the services that match the port.
add_services : String → List String → List String → List String
add_services hwport [] candidates = candidates
add_services hwport (svc ∷ order) candidates = add_services hwport order (
    if overlap hwport svc && not (contains svc candidates)
    then candidates ++ (svc ∷ [])
    else candidates)

module _ (host : Host) where
  unfoldable pub identify_bootmux_services : Baseline → Shield host (List String)
  unfolding split_lines interface_with add_services
  identify_bootmux_services baseline w =
      let candidates = filter is_product baseline.service_order in
      let (nwi, w1) = exec host ("scutil" ∷ "--nwi" ∷ []) w in
      let (listing, w2) = exec host ("ifconfig" ∷ []) w1 in
      let interface = interface_with "" (split_lines listing.stdout) in
      let hwport = get_or "" interface baseline.interfaces in
      if text_in bootmux_subnet_address nwi.stdout
      then (
        (if given interface && given hwport
            then add_services hwport baseline.service_order candidates
            else candidates),
        w2,
      )
      else (candidates, w1)

  -- The body of the loop over the services that were found; the result is those that were disabled.
  unfoldable pub disable_services : String → Baseline → List String → Shield host (List String)
  disable_services session baseline [] w = ([], w)
  disable_services session baseline (svc ∷ svcs) w =
      let cmd = service_command svc "off" in
      let (r, w1) = exec host cmd w in
      let pre = record empty_pre { enabled = some (get_or true svc baseline.service_enabled) } in
      let (_, w2) = note host session service_disable svc (some pre) cmd r.exit_code w1 in
      let (rest, w3) = disable_services session baseline svcs w2 in
      ((if ok r then svc ∷ rest else rest), w3)

  -- A route of the table that is deleted: the entry goes to the journal, with the exit code 0, before
  -- the command runs.
  unfoldable pub remove_route : String → String → String → Shield host (Unit {0})
  remove_route session dest gateway = do
    let cmd = "route" ∷ "-n" ∷ "delete" ∷ dest ∷ gateway ∷ []
    note host session route_delete dest
        (some
          (record empty_pre { existed = some true; gateway = some gateway; family = some "inet" }))
        cmd (pos 0)
    do_exec host cmd

  unfoldable pub remove_line : String → List String → Shield host (List String)
  unfolding remove_route
  remove_line session (dest ∷ gateway ∷ more) w =
      (dest ∷ [], (remove_route session dest gateway w).1)
  remove_line session _ w = ([], w)

  -- The loop over `netstat -rn`; the result is the destinations that were removed.
  unfoldable pub remove_routes : String → List String → Shield host (List String)
  unfolding remove_line split_words
  remove_routes session [] w = ([], w)
  remove_routes session (line ∷ lines) w =
      let (removed, w1) =
        if text_in bootmux_subnet_address line
        then remove_line session (split_words line) w
        else ([], w) in
      let (rest, w2) = remove_routes session lines w1 in (removed ++ rest, w2)

  -- Wi-Fi first, the others in their order; whether it was done.
  unfoldable pub order_wifi_first : String → Baseline → Shield host Bool
  order_wifi_first session baseline w =
      let others = filter (λ s. not (s == baseline.wifi_service)) baseline.service_order in
      let cmd = "networksetup" ∷ "-ordernetworkservices" ∷ baseline.wifi_service ∷ others in
      let (r, w1) = exec host cmd w in
      let pre = record empty_pre { order = some baseline.service_order } in
      if given baseline.wifi_service && not (is_empty baseline.service_order)
      then (true, (note host session order_set "network_services" (some pre) cmd r.exit_code w1).1)
      else (false, w)

  unfoldable pub quarantine_bootmux : String → Baseline → Shield host QuarantineResult
  unfolding identify_bootmux_services disable_services remove_routes order_wifi_first split_lines
      parse_default_route
  quarantine_bootmux session baseline = do
    found ← identify_bootmux_services baseline
    disabled ← disable_services session baseline found
    table ← exec host ("netstat" ∷ "-rn" ∷ [])
    removed ← remove_routes session (split_lines table.stdout)
    first ← order_wifi_first session baseline
    default ← exec host ("route" ∷ "-n" ∷ "get" ∷ "default" ∷ [])
    let on_wifi = (parse_default_route default.stdout).1 == baseline.wifi_device
    pure (record {
      bootmux_services_found = found;
      services_disabled = disabled;
      routes_removed = removed;
      wifi_first = first;
      default_route_on_wifi = on_wifi;
      classification = if on_wifi && first then "GREEN" else "YELLOW";
    })
