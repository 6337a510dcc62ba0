-- ===== src/Shield/Saved/Repair.antt =====
-- Recovery.
use bootmux.Base.{
  refl, ◌∙◌, Option, none, some, List, [], ◌∷◌, String, arith, text_in, ◌&&◌, ◌||◌, not, ◌==◌, ◌++◌,
  is_empty, if◌then◌else◌,
}
use bootmux.Shield.Baseline.{Baseline, given}
use bootmux.Shield.Host.{Host, Reply, when}
use bootmux.Shield.Journal.{note}
use bootmux.Shield.Recovery.{
  Steps, get_current_interfaces, detect_new_external_ethernet, note_service, block, block_all,
  disable_matching, disable_ports, delete_default, delete_defaults, delete_routes, restore_wifi,
  power_cycle, rejoin, retry, finish, run_recovery, first_word,
}
use bootmux.Shield.Saved.{Keeps, if_Keeps, when-Keeps}
use bootmux.Shield.Saved.Setup.{pf_install_anchor-Keeps}
use bootmux.Base.Lines.{split_words, split_lines}
use bootmux.Shield.World.{World, exec, do_exec}

module _ (host : Host) where
  pub detect-Keeps :
      (b : Baseline) (w : World host) → Keeps (detect_new_external_ethernet host b w).1 w
  unfolding detect_new_external_ethernet get_current_interfaces
  detect-Keeps b w = refl

  note_service-Keeps :
      (session : Option String) (b : Baseline) (svc : String) (r : Reply) (w : World host)
      → Keeps (note_service host session b svc r w).1 w
  unfolding note
  note_service-Keeps none b svc r w = refl
  note_service-Keeps (some session) b svc r w = refl

  block-Keeps :
      (session : Option String) (b : Baseline) (iface : String) (w : World host)
      → Keeps (block host session b iface w).1 w
  unfolding block
  block-Keeps none b iface w = refl
  block-Keeps (some session) b iface w = pf_install_anchor-Keeps host session iface b.pf_enabled w

  block_all-Keeps :
      (session : Option String) (b : Baseline) (ifaces : List String) (steps : Steps)
      (w : World host)
      → Keeps (block_all host session b ifaces steps w).1 w
  unfolding block_all
  block_all-Keeps session b [] steps w = refl
  block_all-Keeps session b (iface ∷ ifaces) steps w =
      block_all-Keeps session b ifaces _ _ ∙ block-Keeps session b iface w

  disable_matching-Keeps :
      (session : Option String) (b : Baseline) (hwport : String) (svcs : List String)
      (steps : Steps) (w : World host)
      → Keeps (disable_matching host session b hwport svcs steps w).1 w
  unfolding disable_matching
  disable_matching-Keeps session b hwport [] steps w = refl
  disable_matching-Keeps session b hwport (svc ∷ svcs) steps w =
      if_Keeps w _ _ _
        (disable_matching-Keeps session b hwport svcs _ _ ∙ note_service-Keeps session b svc _ _)
        (disable_matching-Keeps session b hwport svcs steps w)

  disable_ports-Keeps :
      (session : Option String) (b : Baseline) (current : List (String × String))
      (ifaces : List String) (steps : Steps) (w : World host)
      → Keeps (disable_ports host session b current ifaces steps w).1 w
  unfolding disable_ports
  disable_ports-Keeps session b current [] steps w = refl
  disable_ports-Keeps session b current (iface ∷ ifaces) steps w =
      if_Keeps w _ _ _
        (disable_ports-Keeps session b current ifaces _ _
          ∙ disable_matching-Keeps session b _ b.service_order steps w)
        (disable_ports-Keeps session b current ifaces steps w)

  delete_default-Keeps :
      (dest : Option String) (steps : Steps) (w : World host)
      → Keeps (delete_default host dest steps w).1 w
  unfolding delete_default
  delete_default-Keeps none steps w = refl
  delete_default-Keeps (some dest) steps w = refl

  delete_defaults-Keeps :
      (line : String) (ifaces : List String) (steps : Steps) (w : World host)
      → Keeps (delete_defaults host line ifaces steps w).1 w
  unfolding delete_defaults
  delete_defaults-Keeps line [] steps w = refl
  delete_defaults-Keeps line (iface ∷ ifaces) steps w =
      let test = text_in iface line && (text_in "default" line || text_in "::/0" line) in
      let found = delete_default host (first_word (split_words line)) steps w in
      let (steps', w') = if test then found else (steps, w) in
      delete_defaults-Keeps line ifaces steps' w'
      ∙ if_Keeps w test found (steps, w)
          (delete_default-Keeps (first_word (split_words line)) steps w) refl

  delete_routes-Keeps :
      (ifaces lines : List String) (steps : Steps) (w : World host)
      → Keeps (delete_routes host ifaces lines steps w).1 w
  unfolding delete_routes
  delete_routes-Keeps ifaces [] steps w = refl
  delete_routes-Keeps ifaces (line ∷ lines) steps w =
      delete_routes-Keeps ifaces lines _ _ ∙ delete_defaults-Keeps line ifaces steps w

  restore_wifi-Keeps :
      (b : Baseline) (steps : Steps) (w : World host) → Keeps (restore_wifi host b steps w).1 w
  unfolding restore_wifi
  restore_wifi-Keeps b steps w =
      let service = b.wifi_service in
      let named = given service in
      let set_dns = "networksetup" ∷ "-setdnsservers" ∷ service ∷ [] in
      let dhcp = do_exec host ("networksetup" ∷ "-setdhcp" ∷ service ∷ []) in
      let automatic = do_exec host (set_dns ++ ("Empty" ∷ [])) in
      let servers = do_exec host (set_dns ++ b.dns_servers) in
      let order = do_exec host ("networksetup" ∷ "-ordernetworkservices" ∷ b.service_order) in
      let w1 = (when (named && b.ipv4_mode == "DHCP") dhcp w).1 in
      let w2 = (when (named && b.dns_automatic) automatic w1).1 in
      let w3 = (when (named && not b.dns_automatic && not (is_empty b.dns_servers)) servers w2).1 in
      when-Keeps (not (is_empty b.service_order)) order w3 refl
      ∙ when-Keeps (named && not b.dns_automatic && not (is_empty b.dns_servers)) servers w2 refl
      ∙ when-Keeps (named && b.dns_automatic) automatic w1 refl
      ∙ when-Keeps (named && b.ipv4_mode == "DHCP") dhcp w refl

  rejoin-Keeps :
      (device : String) (steps : Steps) (w : World host) → Keeps (rejoin host device steps w).1 w
  unfolding rejoin power_cycle
  rejoin-Keeps device steps w = ground arith

  retry-Keeps :
      (device : String) (steps : Steps) (w : World host) → Keeps (retry host device steps w).1 w
  unfolding retry power_cycle
  retry-Keeps device steps w = ground arith

  pub run_recovery-Keeps :
      (b : Baseline) (ifaces : List String) (session : Option String) (w : World host)
      → Keeps (run_recovery host b ifaces session w).1 w
  unfolding run_recovery get_current_interfaces finish
  run_recovery-Keeps b ifaces session w =
      let (blocked, w1) = block_all host session b ifaces [] w in
      let (current, w2) = get_current_interfaces host w1 in
      let (disabled, w3) = disable_ports host session b current ifaces blocked w2 in
      let (table, w4) = exec host ("netstat" ∷ "-rn" ∷ []) w3 in
      let (deleted, w5) = delete_routes host ifaces (split_lines table.stdout) disabled w4 in
      let (restored, w6) = restore_wifi host b deleted w5 in
      let (joined, w7) = rejoin host b.wifi_device restored w6 in
      retry-Keeps b.wifi_device joined w7
      ∙ rejoin-Keeps b.wifi_device restored w6
      ∙ restore_wifi-Keeps b deleted w5
      ∙ delete_routes-Keeps ifaces (split_lines table.stdout) disabled w4
      ∙ disable_ports-Keeps session b current ifaces blocked w2
      ∙ block_all-Keeps session b ifaces [] w
