-- ===== src/Shield/Fingerprint.antt =====
-- scripts/macos/bootmux-attach-shield.py: `capture_fingerprint` and `compare_fingerprints`. A
-- difference is given by the key of its field, without the two values.
pub mod Files
use bootmux.Base.{
  ℕ, suc, Bool, true, false, not, ◌&&◌, ◌||◌, Option, none, some, List, [], ◌∷◌, ◌++◌, map, filter,
  find, String, ◌==◌, ◌<>◌, strip, text_in, codes, ltb, eq_ℕ, any, all, length, same_texts,
  is_empty, if◌then◌else◌,
}
use bootmux.Base.Dict.{codes_leq, get}
use bootmux.Shield.Baseline.{
  given, wifi_service_of, pf_is_enabled, get_current_location, run, run_if,
}
use bootmux.Shield.Host.{Reply, ok, Host, Change, ◌>>=◌, ◌>>◌, pure}
use bootmux.Shield.Parse.{
  parse_service_order, parse_dns_servers, parse_search_domains, parse_ipv4_info, parse_ipv6_mode,
}
use bootmux.Base.Lines.{split_lines, split_words, starts}
use bootmux.Shield.World.{
  Fingerprint, StateFile, missing, corrupt, stored, ShieldState, Disk, World, Shield, on_mac,
}

abbrev launchd_label : String
launchd_label = "com.bootmux.attach-shield"

abbrev pub launchd_plist : String
launchd_plist = "/Library/LaunchDaemons/com.bootmux.attach-shield.plist"

abbrev pub installed_shield : String
installed_shield = "/usr/local/bootmux/scripts/macos/bootmux-attach-shield.py"

abbrev pub state_file_path : String
state_file_path = "/var/db/bootmux-shield/shield-state.json"

insert_text : String → List String → List String
insert_text s [] = s ∷ []
insert_text s (t ∷ ts) =
    let rest = insert_text s ts in if codes_leq (codes s) (codes t) then s ∷ t ∷ ts else t ∷ rest

-- `sorted(texts)`
sort_texts : List String → List String
unfolding insert_text
sort_texts [] = []
sort_texts (s ∷ ss) = insert_text s (sort_texts ss)

abbrev transient : List String
transient = "fe80" ∷ "ff0" ∷ "127." ∷ "::1" ∷ "224." ∷ "0.0.0.0/1" ∷ "128.0.0.0/1" ∷ []

-- The text of a line of the routing table that is kept.
route_text : String → List String → Option String
route_text line (dest ∷ gateway ∷ flags ∷ interface ∷ more) =
    if any (λ p. starts dest p) transient || text_in "link#" line && not (text_in "UGS" line)
    then none
    else some (dest <> " via " <> gateway <> " on " <> interface)
route_text line _ = none

routes_of : List String → List String
unfolding route_text split_words
routes_of [] = []
routes_of (line ∷ lines) = elim (route_text line (split_words line)) [
  | none ↦ routes_of lines
  | some route ↦ route ∷ routes_of lines
]

-- The loop over `netstat -rn`, sorted.
table_routes : String → List String
unfolding routes_of split_lines sort_texts
table_routes table = sort_texts (routes_of (split_lines table))

anchors_of : List String → List String
anchors_of [] = []
anchors_of (line ∷ lines) =
    let rest = anchors_of lines in
    if given (strip line) && not (text_in "ALTQ" line) && not (text_in "disabled" line)
    then strip line ∷ rest
    else rest

pf_anchors_of : String → List String
unfolding anchors_of split_lines sort_texts
pf_anchors_of listing = sort_texts (anchors_of (split_lines listing))

-- `path_exists` of the state file.
abbrev pub state_exists : StateFile → Bool
state_exists missing = false
state_exists corrupt = true
state_exists (stored s) = true

-- The shield's files that are there, in the order of their paths.
abbrev pub shield_files_of : Disk → List String
shield_files_of d =
    (if d.plist then launchd_plist ∷ [] else [])
    ++ (if d.installed then installed_shield ∷ [] else [])
    ++ (if state_exists d.state_file then state_file_path ∷ [] else [])

module _ (host : Host) where
  unfoldable pub capture_mac : Disk → Change host.Mac Fingerprint
  unfolding run_if get_current_location pf_is_enabled table_routes pf_anchors_of
  capture_mac disk = do
    location ← get_current_location host
    listed ← run host ("networksetup" ∷ "-listnetworkserviceorder" ∷ [])
    let (order, enabled) = parse_service_order listed.stdout
    table ← run host ("netstat" ∷ "-rn" ∷ [])
    let service = wifi_service_of order
    dns ← run_if host (given service) ("networksetup" ∷ "-getdnsservers" ∷ service ∷ [])
    search ← run_if host (given service) ("networksetup" ∷ "-getsearchdomains" ∷ service ∷ [])
    info ← run_if host (given service) ("networksetup" ∷ "-getinfo" ∷ service ∷ [])
    pf ← pf_is_enabled host
    anchors ← run host ("pfctl" ∷ "-s" ∷ "Anchors" ∷ [])
    daemon ← run host ("launchctl" ∷ "list" ∷ launchd_label ∷ [])
    pure (record {
      network_location = location;
      service_order = order;
      service_enabled = enabled;
      routes = table_routes table.stdout;
      dns = if given service then parse_dns_servers dns else ([], true);
      search = if given service then parse_search_domains search else ([], true);
      wifi_ipv4_mode = if given service then (parse_ipv4_info info).0 else "";
      wifi_ipv6_mode = if given service then parse_ipv6_mode info else "";
      pf_enabled = pf;
      pf_anchors = pf_anchors_of anchors.stdout;
      launchd_loaded = ok daemon;
      shield_files = shield_files_of disk;
    })

  unfoldable pub capture_fingerprint : Shield host Fingerprint
  unfolding capture_mac
  capture_fingerprint w = on_mac host (capture_mac w.disk) w

abbrev same_bool : Bool → Bool → Bool
same_bool true b = b
same_bool false b = not b

-- `a == b` for dicts with Boolean values.
abbrev same_enabled : List (String × Bool) → List (String × Bool) → Bool
same_enabled a b =
    eq_ℕ (length a) (length b)
    && all (λ e. elim (get e.0 b) [ none ↦ false | some on ↦ same_bool e.1 on ]) a

abbrev same_setting : List String × Bool → List String × Bool → Bool
same_setting (xs, a) (ys, b) = same_texts xs ys && same_bool a b

-- The fields by key, with whether the two fingerprints agree in them.
abbrev pub agreements : Fingerprint → Fingerprint → List (String × Bool)
agreements a b =
    ("dns", same_setting a.dns b.dns)
    ∷ ("launchd_loaded", same_bool a.launchd_loaded b.launchd_loaded)
    ∷ ("network_location", a.network_location == b.network_location)
    ∷ ("pf_anchors", same_texts a.pf_anchors b.pf_anchors)
    ∷ ("pf_enabled", same_bool a.pf_enabled b.pf_enabled)
    ∷ ("routes", same_texts a.routes b.routes)
    ∷ ("search", same_setting a.search b.search)
    ∷ ("service_enabled", same_enabled a.service_enabled b.service_enabled)
    ∷ ("service_order", same_texts a.service_order b.service_order)
    ∷ ("shield_files", same_texts a.shield_files b.shield_files)
    ∷ ("wifi_ipv4_mode", a.wifi_ipv4_mode == b.wifi_ipv4_mode)
    ∷ ("wifi_ipv6_mode", a.wifi_ipv6_mode == b.wifi_ipv6_mode)
    ∷ []

-- `compare_fingerprints`: the keys of the fields that differ, sorted; the two are equal where there
-- are none.
unfoldable pub compare_fingerprints : Fingerprint → Fingerprint → List String
compare_fingerprints a b = map (λ e. e.0) (filter (λ e. not e.1) (agreements a b))
