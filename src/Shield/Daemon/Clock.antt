-- ===== src/Shield/Daemon/Clock.antt =====
-- The clock does not go back while the daemon watches.
use bootmux.Base.{
  ℕ, ◌+◌, ◌≤◌, Bool, true, false, not, ◌&&◌, ◌||◌, Option, none, some, List, [], ◌∷◌, ◌++◌, String,
  ◌==◌, arith, text_in, any, is_empty, if◌then◌else◌,
}
use bootmux.Shield.Baseline.{Baseline, given}
use bootmux.Shield.Daemon.{watch, union, recover_logged}
use bootmux.Shield.Host.{Host, Reply, when}
use bootmux.Shield.Journal.{note, service_command}
use bootmux.Shield.Parse.{parse_default_route}
use bootmux.Shield.Quarantine.Pin.{pf_install_anchor}
use bootmux.Shield.Recovery.{
  Steps, get_current_interfaces, detect_new_external_ethernet, note_service, block, block_all,
  disable_matching, disable_ports, delete_default, delete_defaults, delete_routes, restore_wifi,
  power_command, power_cycle, rejoin, retry, finish, run_recovery, first_word,
}
use bootmux.Shield.Session.{baseline_of}
use bootmux.Base.Lines.{split_words, split_lines, starts}
use bootmux.Shield.World.{World, exec, do_exec, ShieldState, Shield, log, save_state}

-- The wall clock of the Mac: nothing sets it back, and a sleep takes its time.
pub record Clock (host : Host) : Type 0 where
  pub runs : (cmd : List String) (m : host.Mac) → host.now m ≤ host.now (host.run cmd m).1
  pub sleeps : (ms : ℕ) (m : host.Mac) → host.now m + ms ≤ host.now (host.sleep ms m)
  pub writes :
      (path text : String) (m : host.Mac) → host.now m ≤ host.now (host.write_file path text m)
  pub removes : (path : String) (m : host.Mac) → host.now m ≤ host.now (host.remove_file path m)

infixr 4 ◌⨾◌
abbrev ◌⨾◌ : {a b c : ℕ} → a ≤ b → b ≤ c → a ≤ c
◌⨾◌ p q = omega (arith, p, q)

module _ (host : Host) (clock : Clock host) where
  abbrev pub Later : World host → World host → Type 0
  Later v w = host.now v.mac ≤ host.now w.mac

  same : (w : World host) → Later w w
  same w = omega arith

  if_Later :
      {A : Type 0} (w : World host) (test : Bool) (x y : A × World host)
      → Later w x.1
      → Later w y.1
      → Later w (if test then x else y).1
  if_Later w true x y p q = p
  if_Later w false x y p q = q

  when-Later :
      (test : Bool) (m : Shield host (Unit {0})) (w : World host)
      → Later w (m w).1
      → Later w (when test m w).1
  unfolding when
  when-Later true m w p = p
  when-Later false m w p = same w

  note_service-Later :
      (session : Option String) (b : Baseline) (svc : String) (r : Reply) (w : World host)
      → Later w (note_service host session b svc r w).1
  unfolding note
  note_service-Later none b svc r w = same w
  note_service-Later (some session) b svc r w = same w

  pf_install_anchor-Later :
      (session iface : String) (was : Bool) (w : World host)
      → Later w (pf_install_anchor host session iface was w).1
  unfolding pf_install_anchor note
  pf_install_anchor-Later session iface true w =
      clock.writes _ _ w.mac ⨾ clock.runs _ _ ⨾ clock.removes _ _
  pf_install_anchor-Later session iface false w =
      clock.writes _ _ w.mac ⨾ clock.runs _ _ ⨾ clock.removes _ _ ⨾ clock.runs _ _

  block-Later :
      (session : Option String) (b : Baseline) (iface : String) (w : World host)
      → Later w (block host session b iface w).1
  unfolding block
  block-Later none b iface w = same w
  block-Later (some session) b iface w = pf_install_anchor-Later session iface b.pf_enabled w

  block_all-Later :
      (session : Option String) (b : Baseline) (ifaces : List String) (steps : Steps)
      (w : World host)
      → Later w (block_all host session b ifaces steps w).1
  unfolding block_all
  block_all-Later session b [] steps w = same w
  block_all-Later session b (iface ∷ ifaces) steps w =
      block-Later session b iface w ⨾ block_all-Later session b ifaces _ _

  disable_matching-Later :
      (session : Option String) (b : Baseline) (hwport : String) (svcs : List String)
      (steps : Steps) (w : World host)
      → Later w (disable_matching host session b hwport svcs steps w).1
  unfolding disable_matching
  disable_matching-Later session b hwport [] steps w = same w
  disable_matching-Later session b hwport (svc ∷ svcs) steps w =
      let cmd = service_command svc "off" in
      let (r, w1) = exec host cmd w in
      if_Later w _ _ _
        (clock.runs cmd w.mac
          ⨾ note_service-Later session b svc r w1
          ⨾ disable_matching-Later session b hwport svcs _ _)
        (disable_matching-Later session b hwport svcs steps w)

  disable_ports-Later :
      (session : Option String) (b : Baseline) (current : List (String × String))
      (ifaces : List String) (steps : Steps) (w : World host)
      → Later w (disable_ports host session b current ifaces steps w).1
  unfolding disable_ports
  disable_ports-Later session b current [] steps w = same w
  disable_ports-Later session b current (iface ∷ ifaces) steps w =
      if_Later w _ _ _
        (disable_matching-Later session b _ b.service_order steps w
          ⨾ disable_ports-Later session b current ifaces _ _)
        (disable_ports-Later session b current ifaces steps w)

  delete_default-Later :
      (dest : Option String) (steps : Steps) (w : World host)
      → Later w (delete_default host dest steps w).1
  unfolding delete_default
  delete_default-Later none steps w = same w
  delete_default-Later (some dest) steps w = clock.runs _ w.mac

  delete_defaults-Later :
      (line : String) (ifaces : List String) (steps : Steps) (w : World host)
      → Later w (delete_defaults host line ifaces steps w).1
  unfolding delete_defaults
  delete_defaults-Later line [] steps w = same w
  delete_defaults-Later line (iface ∷ ifaces) steps w =
      let test = text_in iface line && (text_in "default" line || text_in "::/0" line) in
      let found = delete_default host (first_word (split_words line)) steps w in
      let (steps', w') = if test then found else (steps, w) in
      if_Later w test found (steps, w)
        (delete_default-Later (first_word (split_words line)) steps w) (same w)
      ⨾ delete_defaults-Later line ifaces steps' w'

  delete_routes-Later :
      (ifaces lines : List String) (steps : Steps) (w : World host)
      → Later w (delete_routes host ifaces lines steps w).1
  unfolding delete_routes
  delete_routes-Later ifaces [] steps w = same w
  delete_routes-Later ifaces (line ∷ lines) steps w =
      delete_defaults-Later line ifaces steps w ⨾ delete_routes-Later ifaces lines _ _

  runs_when :
      (test : Bool) (cmd : List String) (w : World host)
      → Later w (when test (do_exec host cmd) w).1
  runs_when test cmd w = when-Later test (do_exec host cmd) w (clock.runs cmd w.mac)

  restore_wifi-Later :
      (b : Baseline) (steps : Steps) (w : World host) → Later w (restore_wifi host b steps w).1
  unfolding restore_wifi
  restore_wifi-Later b steps w =
      let service = b.wifi_service in
      let named = given service in
      let set_dns = "networksetup" ∷ "-setdnsservers" ∷ service ∷ [] in
      let dhcp = "networksetup" ∷ "-setdhcp" ∷ service ∷ [] in
      let manual = named && not b.dns_automatic && not (is_empty b.dns_servers) in
      let w1 = (when (named && b.ipv4_mode == "DHCP") (do_exec host dhcp) w).1 in
      let w2 = (when (named && b.dns_automatic) (do_exec host (set_dns ++ ("Empty" ∷ []))) w1).1 in
      let w3 = (when manual (do_exec host (set_dns ++ b.dns_servers)) w2).1 in
      runs_when (named && b.ipv4_mode == "DHCP") dhcp w
      ⨾ runs_when (named && b.dns_automatic) (set_dns ++ ("Empty" ∷ [])) w1
      ⨾ runs_when manual (set_dns ++ b.dns_servers) w2
      ⨾ runs_when (not (is_empty b.service_order))
          ("networksetup" ∷ "-ordernetworkservices" ∷ b.service_order) w3

  sleeps-Later : (ms : ℕ) (w : World host) → host.now w.mac ≤ host.now (host.sleep ms w.mac)
  sleeps-Later ms w = omega (arith, clock.sleeps ms w.mac)

  power_cycle-Later : (device : String) (w : World host) → Later w (power_cycle host device w).1
  unfolding power_cycle
  power_cycle-Later device w =
      let (_, w1) = do_exec host (power_command host device "off") w in
      clock.runs (power_command host device "off") w.mac
      ⨾ sleeps-Later 1000 w1
      ⨾ clock.runs (power_command host device "on") (host.sleep 1000 w1.mac)

  rejoin-Later :
      (device : String) (steps : Steps) (w : World host) → Later w (rejoin host device steps w).1
  unfolding rejoin
  rejoin-Later device steps w =
      let (r, w1) = exec host ("networksetup" ∷ "-getairportnetwork" ∷ device ∷ []) w in
      if_Later w (not (given device)) _ _ (same w) (
        clock.runs _ w.mac
        ⨾ if_Later w1 (text_in "Current Wi-Fi Network:" r.stdout) _ _ (same w1)
            (power_cycle-Later device w1))

  retry-Later :
      (device : String) (steps : Steps) (w : World host) → Later w (retry host device steps w).1
  unfolding retry
  retry-Later device steps w =
      if_Later w (any (λ e. starts e.1 "INCOMPLETE") steps && given device) _ _
        (power_cycle-Later device w) (same w)

  run_recovery-Later :
      (b : Baseline) (ifaces : List String) (session : Option String) (w : World host)
      → Later w (run_recovery host b ifaces session w).1
  unfolding run_recovery get_current_interfaces finish
  run_recovery-Later b ifaces session w =
      let (blocked, w1) = block_all host session b ifaces [] w in
      let (current, w2) = get_current_interfaces host w1 in
      let (disabled, w3) = disable_ports host session b current ifaces blocked w2 in
      let (table, w4) = exec host ("netstat" ∷ "-rn" ∷ []) w3 in
      let (deleted, w5) = delete_routes host ifaces (split_lines table.stdout) disabled w4 in
      let (restored, w6) = restore_wifi host b deleted w5 in
      let (joined, w7) = rejoin host b.wifi_device restored w6 in
      let (retried, w8) = retry host b.wifi_device joined w7 in
      block_all-Later session b ifaces [] w
      ⨾ clock.runs _ w1.mac
      ⨾ disable_ports-Later session b current ifaces blocked w2
      ⨾ clock.runs _ w3.mac
      ⨾ delete_routes-Later ifaces (split_lines table.stdout) disabled w4
      ⨾ restore_wifi-Later b deleted w5
      ⨾ rejoin-Later b.wifi_device restored w6
      ⨾ retry-Later b.wifi_device joined w7
      ⨾ clock.runs ("route" ∷ "-n" ∷ "get" ∷ "default" ∷ []) w8.mac

  pub watch-Later : (s : ShieldState) (w : World host) → Later w (watch host s w).1
  unfolding watch detect_new_external_ethernet get_current_interfaces
  watch-Later s w =
      let b = baseline_of s in
      let (found, w1) = detect_new_external_ethernet host b w in
      let seen = record s { untrusted_interfaces = union s.untrusted_interfaces found } in
      let (_, w2) = log host s.session_id "untrusted_detected" w1 in
      let (_, w3) = save_state host seen w2 in
      let (r, w4) = exec host ("route" ∷ "-n" ∷ "get" ∷ "default" ∷ []) w1 in
      let (_, w5) = log host s.session_id "route_drift" w4 in
      clock.runs ("networksetup" ∷ "-listallhardwareports" ∷ []) w.mac
      ⨾ if_Later w1 (not (is_empty found)) (seen, (recover_logged host s b found w3).1)
          (if (parse_default_route r.stdout).1 == b.wifi_device
            then (s, w4)
            else (s, (recover_logged host s b s.untrusted_interfaces w5).1))
          (run_recovery-Later b found (some s.session_id) w3)
          (clock.runs ("route" ∷ "-n" ∷ "get" ∷ "default" ∷ []) w1.mac
            ⨾ if_Later w4 ((parse_default_route r.stdout).1 == b.wifi_device) (s, w4)
                (s, (recover_logged host s b s.untrusted_interfaces w5).1) (same w4)
                (run_recovery-Later b s.untrusted_interfaces (some s.session_id) w5))
