-- ===== src/Shield/Recovery.antt =====
-- scripts/macos/bootmux-attach-shield.py: recovery, Q1 to Q9, and the interfaces that are new.
use bootmux.Base.{
  Bool, true, false, not, ◌&&◌, ◌||◌, Option, none, some, List, [], ◌∷◌, ◌++◌, map, filter, String,
  ◌==◌, ◌<>◌, text_in, contains, any, is_empty, if◌then◌else◌,
}
use bootmux.Base.Dict.{get_or, put, keys}
use bootmux.Shield.Baseline.{Baseline, given}
use bootmux.Shield.Host.{Reply, ok, Host, ◌>>=◌, ◌>>◌, pure, when}
use bootmux.Shield.Journal.{note, service_command}
use bootmux.Shield.Parse.{parse_interfaces, parse_default_route, is_virtual_service}
use bootmux.Shield.Quarantine.{overlap}
use bootmux.Shield.Quarantine.Pin.{pf_install_anchor}
use bootmux.Base.Lines.{split_lines, split_words, mentions, starts}
use bootmux.Shield.World.{empty_pre, Shield, on_mac, exec, do_exec, service_disable}

-- The dict of the steps.
abbrev pub Steps : Type 0
Steps = List (String × String)

pub record RecoveryResult : Type 0 where
  pub steps : Steps
  pub classification : String

-- A port that the shield does not trust by its name.
abbrev is_wired : String → Bool
is_wired port =
    mentions "ethernet" port
    || mentions "ncm" port
    || mentions "ecm" port
    || mentions "rndis" port
    || mentions "thunderbolt" port

-- The test of `detect_new_external_ethernet` on a device and its port.
abbrev is_untrusted : Baseline → String × String → Bool
is_untrusted baseline (dev, port) =
    not (contains dev (keys baseline.interfaces) || dev == "lo0" || dev == "awdl0")
    && not (is_virtual_service port)
    && is_wired port

-- The service that matches the port of an interface, disabled.
abbrev disabled_step : Bool → String
disabled_step true = "OK"
disabled_step false = "INCOMPLETE:disable"

abbrev pub first_word : List String → Option String
first_word [] = none
first_word (w ∷ ws) = some w

module _ (host : Host) where
  unfoldable pub get_current_interfaces : Shield host (List (String × String))
  get_current_interfaces = do
    r ← exec host ("networksetup" ∷ "-listallhardwareports" ∷ [])
    pure (parse_interfaces r.stdout)

  unfoldable pub detect_new_external_ethernet : Baseline → Shield host (List String)
  unfolding get_current_interfaces
  detect_new_external_ethernet baseline = do
    current ← get_current_interfaces
    pure (map (λ e. e.0) (filter (is_untrusted baseline) current))

  -- `journal.record`, where there is a journal.
  abbrev pub note_service : Option String → Baseline → String → Reply → Shield host (Unit {0})
  note_service none baseline svc r w = (tt, w)
  note_service (some session) baseline svc r w =
      note host session service_disable svc
        (some (record empty_pre { enabled = some (get_or true svc baseline.service_enabled) }))
        (service_command svc "off") r.exit_code w

  unfoldable pub block : Option String → Baseline → String → Shield host Bool
  unfolding pf_install_anchor
  block none baseline iface w = (false, w)
  block (some session) baseline iface w = pf_install_anchor host session iface baseline.pf_enabled w

  -- Q1: the anchor, for each interface.
  unfoldable pub block_all : Option String → Baseline → List String → Steps → Shield host Steps
  unfolding block
  block_all session baseline [] steps w = (steps, w)
  block_all session baseline (iface ∷ ifaces) steps w =
      let (good, w1) = block session baseline iface w in
      block_all session baseline ifaces
        (put ("Q1:" <> iface) (if good then "OK" else "INCOMPLETE:pf_block") steps) w1

  -- Q2 for a port: each service that matches it is disabled.
  unfoldable pub disable_matching :
      Option String → Baseline → String → List String → Steps → Shield host Steps
  unfolding note
  disable_matching session baseline hwport [] steps w = (steps, w)
  disable_matching session baseline hwport (svc ∷ svcs) steps w =
      let (r, w1) = exec host (service_command svc "off") w in
      let (_, w2) = note_service session baseline svc r w1 in
      if overlap hwport svc
      then disable_matching session baseline hwport svcs
          (put ("Q2:" <> svc) (disabled_step (ok r)) steps) w2
      else disable_matching session baseline hwport svcs steps w

  -- Q2
  unfoldable pub disable_ports :
      Option String → Baseline → List (String × String) → List String → Steps → Shield host Steps
  unfolding disable_matching
  disable_ports session baseline current [] steps w = (steps, w)
  disable_ports session baseline current (iface ∷ ifaces) steps w =
      let hwport = get_or (get_or "" iface baseline.interfaces) iface current in
      let (steps', w') = disable_matching session baseline hwport baseline.service_order steps w in
      if given hwport
      then disable_ports session baseline current ifaces steps' w'
      else disable_ports session baseline current ifaces steps w

  unfoldable pub delete_default : Option String → Steps → Shield host Steps
  delete_default none steps w = (steps, w)
  delete_default (some dest) steps w =
      (put ("Q3:" <> dest) "OK" steps, (do_exec host ("route" ∷ "-n" ∷ "delete" ∷ dest ∷ []) w).1)

  -- Q3 for a line of the table: its default route through an interface is deleted, once for each
  -- interface that it names.
  unfoldable pub delete_defaults : String → List String → Steps → Shield host Steps
  unfolding delete_default split_words
  delete_defaults line [] steps w = (steps, w)
  delete_defaults line (iface ∷ ifaces) steps w =
      let (steps', w') =
        if text_in iface line && (text_in "default" line || text_in "::/0" line)
        then delete_default (first_word (split_words line)) steps w
        else (steps, w) in
      delete_defaults line ifaces steps' w'

  -- Q3
  unfoldable pub delete_routes : List String → List String → Steps → Shield host Steps
  unfolding delete_defaults
  delete_routes ifaces [] steps w = (steps, w)
  delete_routes ifaces (line ∷ lines) steps w =
      let (steps', w') = delete_defaults line ifaces steps w in delete_routes ifaces lines steps' w'

  -- Q4 to Q6: Wi-Fi's address, its DNS servers and the order of the services.
  unfoldable pub restore_wifi : Baseline → Steps → Shield host Steps
  unfolding when
  restore_wifi baseline steps = do
    let service = baseline.wifi_service
    let named = given service
    let set_dns = "networksetup" ∷ "-setdnsservers" ∷ service ∷ []
    when (named && baseline.ipv4_mode == "DHCP")
        (do_exec host ("networksetup" ∷ "-setdhcp" ∷ service ∷ []))
    when (named && baseline.dns_automatic) (do_exec host (set_dns ++ ("Empty" ∷ [])))
    when (named && not baseline.dns_automatic && not (is_empty baseline.dns_servers))
        (do_exec host (set_dns ++ baseline.dns_servers))
    let ordered = not (is_empty baseline.service_order)
    when ordered (do_exec host ("networksetup" ∷ "-ordernetworkservices" ∷ baseline.service_order))
    pure (
        put "Q6" (if ordered then "OK" else "SKIP:no_order_baseline") (
          put "Q5" (if named then "OK" else "SKIP:no_dns_baseline")
            (put "Q4" (if named then "OK" else "SKIP:no_wifi_service") steps)))

  abbrev pub power_command : String → String → List String
  power_command device state = "networksetup" ∷ "-setairportpower" ∷ device ∷ state ∷ []

  -- Wi-Fi off, a second, and on.
  unfoldable pub power_cycle : String → Shield host (Unit {0})
  power_cycle device = do
    do_exec host (power_command device "off")
    on_mac host (λ m. (tt, host.sleep 1000 m))
    do_exec host (power_command device "on")

  -- Q7
  unfoldable pub rejoin : String → Steps → Shield host Steps
  unfolding power_cycle
  rejoin device steps w =
      let (r, w1) = exec host ("networksetup" ∷ "-getairportnetwork" ∷ device ∷ []) w in
      if not (given device)
      then (put "Q7" "SKIP:no_wifi_device" steps, w)
      else if text_in "Current Wi-Fi Network:" r.stdout
      then (put "Q7" "SKIP:associated" steps, w1)
      else (put "Q7" "OK:power_cycled" steps, (power_cycle device w1).1)

  -- Q8
  unfoldable pub retry : String → Steps → Shield host Steps
  unfolding power_cycle
  retry device steps w =
      if any (λ e. starts e.1 "INCOMPLETE") steps && given device
      then (put "Q8" "OK" steps, (power_cycle device w).1)
      else (put "Q8" "SKIP:not_needed" steps, w)

  -- Q9
  unfoldable pub finish : Baseline → Steps → Shield host RecoveryResult
  finish baseline steps = do
    r ← exec host ("route" ∷ "-n" ∷ "get" ∷ "default" ∷ [])
    let good = (parse_default_route r.stdout).1 == baseline.wifi_device
    pure (record {
      steps = put "Q9" (if good then "OK" else "INCOMPLETE:route_not_restored") steps;
      classification = if good then "GREEN" else "INCOMPLETE:Q9";
    })

  -- `run_recovery`, with the session of its journal where it has one.
  unfoldable pub run_recovery : Baseline → List String → Option String → Shield host RecoveryResult
  unfolding block_all get_current_interfaces disable_ports delete_routes split_lines restore_wifi
      rejoin retry finish
  run_recovery baseline ifaces session = do
    blocked ← block_all session baseline ifaces []
    current ← get_current_interfaces
    disabled ← disable_ports session baseline current ifaces blocked
    table ← exec host ("netstat" ∷ "-rn" ∷ [])
    deleted ← delete_routes ifaces (split_lines table.stdout) disabled
    restored ← restore_wifi baseline deleted
    joined ← rejoin baseline.wifi_device restored
    retried ← retry baseline.wifi_device joined
    finish baseline retried
