-- ===== src/Shield/Tests.antt =====
-- The checks of `cmd_self_test`, a small Mac, and the theorems on the shield at concrete worlds.
use bootmux.Base.{
  ◌≡◌, ◌≢◌, refl, ℕ, suc, ◌+◌, pos, Bool, true, false, none, some, List, [], ◌∷◌, String, arith,
  eq_iff, contains, codes_start, codes_contain, lower, if◌then◌else◌,
}
use bootmux.Shield.Answers.{armed_as}
use bootmux.Base.Dict.{get, put}
use bootmux.Shield.Commands.{cmd_arm}
use bootmux.Shield.Commands.Bounds.{ArmOutcome, cmd_arm-outcome}
use bootmux.Shield.Commands.Fresh.{close_session-fresh}
use bootmux.Shield.Commands.Lifecycle.{Edge, close, status}
use bootmux.Shield.Commands.Lifecycle.Execute.{execute, execute-Edge}
use bootmux.Shield.Daemon.{daemon_round, daemon_rounds}
use bootmux.Shield.Daemon.Clock.{Clock}
use bootmux.Shield.Daemon.Liveness.{daemon_rounds-closes}
use bootmux.Shield.Daemon.Watch.{RoundOutcome, daemon_round-deadline}
use bootmux.Shield.Host.{Reply, Host}
use bootmux.Shield.Journal.{note, rollback, entries, undo}
use bootmux.Shield.Journal.Undoing.{service_off, rollback-note}
use bootmux.Shield.Journal.Rollback.{rollback-restores, start, changed}
use bootmux.Shield.Parse.{
  parse_interfaces, parse_service_order, parse_default_route, parse_dns_servers, is_virtual_service,
}
use bootmux.Shield.Redact.{redact}
use bootmux.Shield.Session.{close_session}
use bootmux.Shield.Session.Close.{Closes, Released, close_session-outcome}
use bootmux.Shield.World.{service_disable, empty_pre, ShieldState, missing, stored, Disk, World}

-- The checks of `cmd_self_test`.
redact_mac : redact "aa:bb:cc:dd:ee:ff" ≡ "<redacted>"
unfolding redact
redact_mac = refl

redact_ip : redact "192.168.1.1" ≡ "<redacted>"
unfolding redact
redact_ip = refl

redact_path : redact "/Users/secret/file" ≡ "<redacted>/file"
unfolding redact
redact_path = refl

parse_order : parse_service_order "(1) Wi-Fi\n(*) Ethernet\n(2) Tailscale" ≡ (
  "Wi-Fi" ∷ "Ethernet" ∷ "Tailscale" ∷ [],
  ("Wi-Fi", true) ∷ ("Ethernet", false) ∷ ("Tailscale", true) ∷ [],
)
unfolding parse_service_order codes_start
parse_order = refl

parse_route :
    parse_default_route "   route to: default\n   gateway: 192.168.1.1\n   interface: en0"
    ≡ ("192.168.1.1", "en0")
unfolding parse_default_route codes_start
parse_route = refl

parse_dns_auto : parse_dns_servers "There aren't any DNS Servers set on Wi-Fi." ≡ ([], true)
unfolding parse_dns_servers codes_start
parse_dns_auto = refl

parse_dns_manual :
    parse_dns_servers "192.168.1.1\n8.8.8.8" ≡ ("192.168.1.1" ∷ "8.8.8.8" ∷ [], false)
unfolding parse_dns_servers codes_start
parse_dns_manual = refl

virtual_tailscale : is_virtual_service "Tailscale" ≡ true
unfolding is_virtual_service codes_contain lower
virtual_tailscale = refl

not_virtual_wifi : is_virtual_service "Wi-Fi" ≡ false
unfolding is_virtual_service codes_contain lower
not_virtual_wifi = refl

-- A Mac with a clock and one service, whose commands take a millisecond each.
record Toy : Type 0 where
  clock : ℕ
  enabled : Bool

abbrev reply : String → Reply
reply text = record { exit_code = pos 0; stdout = text; stderr = "" }

abbrev ports : String
ports = "Hardware Port: Wi-Fi\nDevice: en0\n"

abbrev toy_run : List String → Toy → Reply × Toy
toy_run cmd m = (
  (if contains "-listallhardwareports" cmd
      then reply ports
      else if contains "default" cmd
      then reply "gateway: 192.168.1.1\ninterface: en0"
      else reply ""),
  record {
    clock = suc m.clock;
    enabled = if contains "-setnetworkserviceenabled" cmd then contains "on" cmd else m.enabled;
  },
)

abbrev toy_host : Host
toy_host = record {
  Mac = Toy;
  run = toy_run;
  sleep = λ ms m. record m { clock = m.clock + ms };
  now = λ m. m.clock;
  uuid = λ m. ("0a1b2c3d", m);
  digest = λ s. s;
  write_file = λ path text m. m;
  remove_file = λ path m. m;
}

toy_clock : Clock toy_host
toy_clock = record {
  runs = λ cmd m. omega arith;
  sleeps = λ ms m. omega arith;
  writes = λ path text m. omega arith;
  removes = λ path m. omega arith;
}

abbrev empty_disk : Disk
empty_disk = record {
  state_file = missing;
  journals = [];
  first_prints = [];
  logs = [];
  evidence = [];
  plist = true;
  installed = true;
}

abbrev fresh : World toy_host
fresh = record { mac = record { clock = 5; enabled = true }; disk = empty_disk; seq = 0 }

-- A session that is armed until the clock shows 1000 and has seen en7.
abbrev toy_state : ShieldState
toy_state = record {
  armed = true;
  session_id = "0a1b2c3d";
  baseline = none;
  pinned_routes = [];
  quarantined_services = [];
  untrusted_interfaces = "en7" ∷ [];
  pf_anchor_active = false;
  pf_was_enabled = true;
  armed_at = 0;
  expires_at = 1000;
  ttl_seconds = 60;
  classification = "GREEN";
  shield_location = "";
  original_location = "";
  location_mode = false;
  session_closed = false;
}

abbrev armed_world : World toy_host
armed_world = record fresh { disk = record empty_disk { state_file = stored toy_state } }

abbrev turned : String → List String
turned state = "networksetup" ∷ "-setnetworkserviceenabled" ∷ "BOOTMUX" ∷ state ∷ []

-- The service turned off by the session.
abbrev noted : World toy_host
noted =
    (note toy_host "0a1b2c3d" service_disable "BOOTMUX"
      (some (record empty_pre { enabled = some true })) (turned "off") (pos 0)
      (record fresh { mac = record { clock = 6; enabled = false } })).1

arm_fresh : (cmd_arm toy_host (pos 100) fresh).0.1 ≡ armed_as "GREEN" "0a1b2c3d"
unfolding cmd_arm codes_start codes_contain lower parse_interfaces
arm_fresh = refl

rollback-note_example :
    let (_, w1) =
      note toy_host "0a1b2c3d" service_disable "BOOTMUX"
        (some (record empty_pre { enabled = some true }))
        (turned "off")
        (pos 0)
        fresh in
    let undone = record fresh { mac = (toy_run (turned "on") fresh.mac).1 } in
    ((rollback toy_host "0a1b2c3d" w1).0 ≡ (rollback toy_host "0a1b2c3d" undone).0)
    × ((rollback toy_host "0a1b2c3d" w1).1.mac ≡ (rollback toy_host "0a1b2c3d" undone).1.mac)
rollback-note_example =
    rollback-note toy_host "0a1b2c3d" (service_off "BOOTMUX") (turned "off") fresh tt

toggles :
    (cmd : List String) (m n : Toy)
    → m.enabled ≡ n.enabled
    → (toy_run cmd m).1.enabled ≡ (toy_run cmd n).1.enabled
toggles cmd m n h = ground arith

rollback-restores_example :
    let (issues, w) = rollback toy_host "0a1b2c3d" noted in
    (issues ≡ []) × (w.mac.enabled ≡ true) × (w.disk ≡ noted.disk)
unfolding note entries undo get put
rollback-restores_example =
    rollback-restores toy_host (λ m. m.enabled) "0a1b2c3d" noted
      {m = record { clock = 0; enabled = true }} (toggles (turned "on"), tt)
      (changed (record empty_pre { enabled = some true })
        (start {m = record { clock = 0; enabled = true }} {n = record { clock = 1; enabled = true }}
          refl)
        refl refl refl)

other : ◌≢◌ {A = String} "ffffffff" "0a1b2c3d"
other e = let same = (eq_iff "ffffffff" "0a1b2c3d").1 e in cc

close_session-outcome_example :
    Closes toy_host toy_state (close_session toy_host toy_state true armed_world)
close_session-outcome_example = close_session-outcome toy_host toy_state true armed_world

cmd_arm-outcome_example : ArmOutcome toy_host fresh (cmd_arm toy_host (pos 100) fresh)
cmd_arm-outcome_example = cmd_arm-outcome toy_host (pos 100) fresh

execute-Edge_example :
    Edge
      (close true)
      (status toy_host armed_world)
      (status toy_host (execute toy_host (close true) armed_world))
execute-Edge_example = execute-Edge toy_host (close true) armed_world

daemon_round-deadline_example :
    RoundOutcome toy_host toy_state armed_world (daemon_round toy_host toy_state armed_world)
daemon_round-deadline_example = daemon_round-deadline toy_host toy_state armed_world refl

daemon_rounds-closes_example :
    Released toy_host toy_state (daemon_rounds toy_host 4 toy_state armed_world).1
daemon_rounds-closes_example =
    daemon_rounds-closes toy_host toy_clock 3 toy_state armed_world refl refl (omega arith)

-- The fresh session with a state saved over its own.
abbrev closable : World toy_host
closable =
    let (_, w) = cmd_arm toy_host (pos 100) fresh in
    record w { disk = record w.disk { state_file = stored toy_state } }

close_session-fresh_example : (close_session toy_host toy_state true closable).0.0 ≡ false
close_session-fresh_example =
    close_session-fresh toy_host (pos 100) fresh closable toy_state toy_state true refl arm_fresh
      refl refl
