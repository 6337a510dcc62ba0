-- ===== src/Shield/Journal.antt =====
-- scripts/macos/bootmux-attach-shield.py: `MutationJournal`.
pub mod Rollback
pub mod Entries
pub mod Undoing
use bootmux.Base.{
  ℕ, suc, ◌+◌, ℤ, Bool, true, false, not, ◌&&◌, ◌||◌, Option, none, some, List, [], ◌∷◌, ◌++◌, map,
  String, ◌==◌, ◌<>◌, is_empty, is_zero, leb, if◌then◌else◌,
}
use mathlib.Core.List.{reverse}
use bootmux.Base.Dict.{get, put, get_or}
use bootmux.Shield.Host.{Reply, Host, Change, ◌>>=◌, ◌>>◌, pure}
use bootmux.Shield.Parse.{Manual}
use bootmux.Shield.Redact.{redact}
use bootmux.Base.Lines.{split_words}
use bootmux.Shield.World.{
  Category, service_disable, service_enable, route_add, route_delete, dns_set, search_set,
  order_set, ipv4_set, ipv6_set, pf_enable, pf_anchor_load, location_switch, location_create,
  wifi_power_set, other, PreValue, Entry, Line, malformed, entry, Disk, World, Shield, do_exec,
  on_disk,
}

abbrev pub lines_of : String → Disk → List Line
lines_of session d = get_or [] session d.journals

-- The largest number of an entry.
last_seq : List Line → ℕ
last_seq [] = 0
last_seq (malformed ∷ lines) = last_seq lines
last_seq (entry e ∷ lines) = let rest = last_seq lines in if leb e.seq rest then rest else e.seq

-- `entries`: the lines that can be read.
unfoldable pub entries : List Line → List Entry
entries [] = []
entries (malformed ∷ lines) = entries lines
entries (entry e ∷ lines) = e ∷ entries lines

abbrev get_bool : Bool → Option Bool → Bool
get_bool default none = default
get_bool default (some b) = b

abbrev get_text : String → Option String → String
get_text default none = default
get_text default (some s) = s

abbrev get_texts : Option (List String) → List String
get_texts none = []
get_texts (some xs) = xs

abbrev some_text : Option String → Bool
some_text none = false
some_text (some s) = true

abbrev command_if : Bool → List String → Option (List String)
command_if test cmd = if test then some cmd else none

abbrev pub service_command : String → String → List String
service_command name state = "networksetup" ∷ "-setnetworkserviceenabled" ∷ name ∷ state ∷ []

abbrev pub route_command : String → String → String → String → List String
route_command verb flag dest gateway = "route" ∷ "-n" ∷ verb ∷ flag ∷ dest ∷ gateway ∷ []

abbrev family_flag : String → String
family_flag family = if family == "inet6" then "-inet6" else "-net"

unpin : List String → Option (List String)
unpin (family ∷ dest ∷ via ∷ gateway ∷ more) =
    some (route_command "delete" (family_flag family) dest gateway)
unpin _ = none

-- The deletion of the route that an entry `family dest via gateway` names.
unfoldable pub unpin_command : String → Option (List String)
unfolding split_words unpin
unpin_command route = unpin (split_words route)

-- `Empty` where the setting was automatic, else the list where there is one.
list_command : String → String → Bool → List String → Option (List String)
list_command flag target automatic items =
    if automatic
    then some ("networksetup" ∷ flag ∷ target ∷ "Empty" ∷ [])
    else command_if (not (is_empty items)) ("networksetup" ∷ flag ∷ target ∷ items)

-- `if m:`, for the dict of a manual configuration.
has_values : Manual → Bool
has_values m = some_text m.ip || some_text m.subnet || some_text m.router

manual_command : String → Option Manual → Option (List String)
unfolding has_values
manual_command target none = none
manual_command target (some m) = command_if (has_values m) (
    "networksetup"
    ∷ "-setmanual"
    ∷ target
    ∷ get_text "" m.ip
    ∷ get_text "" m.subnet
    ∷ get_text "" m.router
    ∷ [])

ipv4_command : String → String → Option Manual → Option (List String)
unfolding manual_command
ipv4_command target mode manual =
    if mode == "DHCP"
    then some ("networksetup" ∷ "-setdhcp" ∷ target ∷ [])
    else if mode == "Manual"
    then manual_command target manual
    else none

-- `_rollback_one`: the command that it runs, if any.
unfoldable pub undo : Category → String → PreValue → Option (List String)
unfolding list_command ipv4_command unpin_command
undo service_disable target pre =
    command_if (get_bool false pre.enabled) (service_command target "on")
undo service_enable target pre =
    command_if (not (get_bool true pre.enabled)) (service_command target "off")
undo route_add target pre = unpin_command target
undo route_delete target pre = command_if (get_bool false pre.existed) (
    route_command "add" (family_flag (get_text "inet" pre.family)) target (get_text "" pre.gateway))
undo dns_set target pre =
    list_command "-setdnsservers" target (get_bool true pre.automatic) (get_texts pre.servers)
undo search_set target pre =
    list_command "-setsearchdomains" target (get_bool true pre.automatic) (get_texts pre.domains)
undo order_set target pre =
    command_if (not (is_empty (get_texts pre.order)))
      ("networksetup" ∷ "-ordernetworkservices" ∷ get_texts pre.order)
undo ipv4_set target pre = ipv4_command target (get_text "DHCP" pre.mode) pre.manual
undo ipv6_set target pre =
    command_if (get_text "Automatic" pre.mode == "Automatic")
      ("networksetup" ∷ "-setv6automatic" ∷ target ∷ [])
undo pf_enable target pre = command_if (not (get_bool true pre.enabled)) ("pfctl" ∷ "-d" ∷ [])
undo pf_anchor_load target pre = some ("pfctl" ∷ "-a" ∷ target ∷ "-F" ∷ "all" ∷ [])
undo location_switch target pre =
    command_if (not (get_text "" pre.location == ""))
      ("networksetup" ∷ "-switchtolocation" ∷ get_text "" pre.location ∷ [])
undo location_create target pre =
    command_if (not (get_bool true pre.existed)) ("networksetup" ∷ "-deletelocation" ∷ target ∷ [])
undo wifi_power_set target pre = some (
    "networksetup"
    ∷ "-setairportpower"
    ∷ target
    ∷ (if get_bool true pre.power then "on" else "off")
    ∷ [])
undo other target pre = none

unfoldable pub show_category : Category → String
show_category service_disable = "service_disable"
show_category service_enable = "service_enable"
show_category route_add = "route_add"
show_category route_delete = "route_delete"
show_category dns_set = "dns_set"
show_category search_set = "search_set"
show_category order_set = "order_set"
show_category ipv4_set = "ipv4_set"
show_category ipv6_set = "ipv6_set"
show_category pf_enable = "pf_enable"
show_category pf_anchor_load = "pf_anchor_load"
show_category location_switch = "location_switch"
show_category location_create = "location_create"
show_category wifi_power_set = "wifi_power_set"
show_category other = "other"

abbrev pub issue_of : Entry → String
issue_of e = "INCOMPLETE_ROLLBACK_UNKNOWN_PRESTATE:" <> show_category e.category <> ":" <> e.target

module _ (host : Host) where
  -- `MutationJournal(host, session_id)`
  unfoldable pub open_journal : String → Shield host (Unit {0})
  unfolding last_seq
  open_journal session w = (tt, record w { seq = last_seq (lines_of session w.disk) })

  -- `record`, for the journal of the session.
  unfoldable pub note :
      String → Category → String → Option PreValue → List String → ℤ → Shield host (Unit {0})
  note session category target pre cmd exit_code w =
      let line = entry (record {
        seq = suc w.seq;
        category = category;
        target = target;
        pre_value = pre;
        cmd = map redact cmd;
        exit_code = exit_code;
      }) in
      let disk = w.disk in
      (
        tt,
        record w {
          seq = suc w.seq;
          disk = record disk {
            journals = put session (lines_of session disk ++ (line ∷ [])) disk.journals;
          };
        },
      )

  -- The body of the loop of `rollback`; what it adds to the issues.
  unfoldable pub rollback_entry : Entry → Shield host (List String)
  unfolding undo
  rollback_entry e w =
      if is_zero e.exit_code
      then elim e.pre_value [
        | none ↦ (issue_of e ∷ [], w)
        | some pre ↦ elim (undo e.category e.target pre) [
          | none ↦ ([], w)
          | some cmd ↦ ([], (do_exec host cmd w).1)
        ]
      ]
      else ([], w)

  unfoldable pub rollback_from : List Entry → Shield host (List String)
  rollback_from [] w = ([], w)
  rollback_from (e ∷ es) w =
      let (issues, w') = rollback_entry e w in
      let (more, w'') = rollback_from es w' in (issues ++ more, w'')

  -- `rollback`: the issues; it succeeds where there are none.
  unfoldable pub rollback : String → Shield host (List String)
  rollback session w = rollback_from (reverse (entries (lines_of session w.disk))) w
