-- ===== src/Shield/Commands/Lifecycle/Execute.antt =====
-- The edges of the other commands, and of them all.
use bootmux.Shield.Commands.Lifecycle.{
  Command, arm, renew_session, close, show_status, recover_now, audit, daemon, uninstall, Edge,
  stays, closes_itself, removes, closing-Edge, seen_status, status, To, stays_at,
}
use bootmux.Shield.Commands.Lifecycle.Edges.{arm_edge, renew_edge, close_edge}
use bootmux.Shield.Saved.{saved, if_Keeps, when-Keeps}
use bootmux.Shield.Saved.Setup.{identify-Keeps}
use bootmux.Shield.Location.{location_supported}
use bootmux.Shield.Saved.Repair.{run_recovery-Keeps, detect-Keeps}
use bootmux.Shield.Recovery.{detect_new_external_ethernet}
use bootmux.Shield.Session.{is_expired}
use bootmux.Base.{
  ◌≡◌, refl, sym, ap, subst, ◌∙◌, inl, inr, ℕ, Bool, true, false, not, Option, none, some, List,
  String, arith, is_empty, if_case, if◌then◌else◌,
}
use bootmux.Shield.Answers.{status_of}
use bootmux.Shield.Commands.{
  cmd_arm, cmd_renew, cmd_close_session, cmd_status, cmd_recover_now, cmd_audit, cmd_uninstall,
  drop_state, recover_with, recover_from, recover,
}
use bootmux.Shield.Daemon.{cmd_daemon, daemon_with, daemon_loop, loop_with, daemon_rounds}
use bootmux.Shield.Baseline.{Baseline, given, capture_baseline}
use bootmux.Shield.Daemon.Watch.{Ended, daemon_rounds-Ended}
use bootmux.Shield.Journal.{open_journal}
use bootmux.Shield.Host.{Host, when}
use bootmux.Shield.Session.Close.{close_session_cases}
use bootmux.Shield.World.{
  ShieldState, StateFile, stored, missing, corrupt, Disk, World, load_state, loaded, on_mac, log,
}

module _ (host : Host) where
  Ended-Edge :
      (rounds : ℕ) (s : ShieldState) (w : World host)
      → s.armed ≡ true
      → Ended host s w
      → To host (daemon rounds) (stored s) w
  Ended-Edge rounds s w on (t, same, inl held) =
      subst (λ g. Edge (daemon rounds) (status_of (stored s)) (status_of g)) (sym held)
        (subst (λ a. Edge (daemon rounds) (status_of (stored s)) a) (sym (seen_status s t same))
          (stays refl))
  Ended-Edge rounds s w on (t, same, inr held) =
      subst (λ g. Edge (daemon rounds) (status_of (stored s)) (status_of g)) (sym held)
        (closing-Edge s refl closes_itself on)

  loop_edge :
      (rounds : ℕ) (session : String) (s : ShieldState) (w : World host)
      → w.disk.state_file ≡ stored s
      → To host (daemon rounds) (stored s) (loop_with host session rounds (some s) w).1
  unfolding loop_with open_journal
  loop_edge rounds session s w h =
      let P = λ (r : Unit {0} × World host). To host (daemon rounds) (stored s) r.1 in
      let (_, w1) = open_journal host s.session_id w in
      let (_, w2) = log host session "daemon_start" w1 in
      let (_, w3) = log host session "daemon_ttl_expired_on_start" w in
      if_case P (not s.armed) _ _ (λ _. stays_at host w refl h)
        λ on.
          if_case P (is_expired s (host.now w.mac)) _ _
            (λ _.
              subst (λ g. Edge (daemon rounds) (status_of (stored s)) (status_of g))
                (sym (close_session_cases host s true w3).0)
                (closing-Edge s refl closes_itself (ground arith)))
            (λ _.
              Ended-Edge rounds s (daemon_rounds host rounds s w2).1 (ground arith)
                (daemon_rounds-Ended host rounds s w2 (ground arith) h))

  daemon_edge :
      (rounds : ℕ) (f : StateFile) (w : World host)
      → w.disk.state_file ≡ f
      → To host (daemon rounds) f (daemon_with host rounds (loaded f) w).1
  unfolding daemon_with daemon_loop
  daemon_edge rounds missing w h = stays_at host w refl h
  daemon_edge rounds corrupt w h = stays_at host w refl h
  daemon_edge rounds (stored s) w h =
      if_case (λ (r : ℕ × World host). To host (daemon rounds) (stored s) r.1) (given s.session_id)
        (0, (daemon_loop host s.session_id rounds w).1) (1, w)
        (λ _.
          subst
            (λ g.
              To host (daemon rounds) (stored s)
                (loop_with host s.session_id rounds (loaded g) w).1)
            (sym h) (loop_edge rounds s.session_id s w h))
        (λ _. stays_at host w refl h)

  recover-saved :
      (s : ShieldState) (b : Baseline) (w : World host)
      → saved (recover host s b w).1.disk ≡ saved w.disk
  unfolding recover open_journal detect_new_external_ethernet
  recover-saved s b w =
      let has_session = given s.session_id in
      let (_, w0) = when has_session (open_journal host s.session_id) w in
      let (found, w1) = detect_new_external_ethernet host b w0 in
      let none_seen = is_empty s.untrusted_interfaces in
      let looked : List String × World host =
        if none_seen then (found, w1) else (s.untrusted_interfaces, w0) in
      run_recovery-Keeps host b looked.0 (if has_session then some s.session_id else none) looked.1
      ∙ if_Keeps w0 none_seen (found, w1) (s.untrusted_interfaces, w0) (detect-Keeps host b w0) refl
      ∙ when-Keeps has_session (open_journal host s.session_id) w refl

  recover_from-saved :
      (s : ShieldState) (b : Option Baseline) (w : World host)
      → saved (recover_from host s b w).1.disk ≡ saved w.disk
  unfolding recover_from
  recover_from-saved s none w = refl
  recover_from-saved s (some b) w = recover-saved s b w

  recover_with-saved :
      (state : Option ShieldState) (w : World host)
      → saved (recover_with host state w).1.disk ≡ saved w.disk
  unfolding recover_with
  recover_with-saved none w = refl
  recover_with-saved (some s) w = recover_from-saved s s.baseline w

  cmd_audit-saved : (w : World host) → saved (cmd_audit host w).1.disk ≡ saved w.disk
  unfolding cmd_audit location_supported
  cmd_audit-saved w =
      let (b, w1) = on_mac host (capture_baseline host) w in
      let (supported, w2) = location_supported host w1 in identify-Keeps host b w2

  drop_state-missing : (purge : Bool) (d : Disk) → (drop_state host purge d).state_file ≡ missing
  drop_state-missing true d = refl
  drop_state-missing false d = refl

  cmd_uninstall-missing :
      (purge : Bool) (path : String) (w : World host)
      → (cmd_uninstall host purge path w).1.disk.state_file ≡ missing
  unfolding cmd_uninstall
  cmd_uninstall-missing purge path w = drop_state-missing purge _

  -- What `main` runs, the answers left out. `--close-session` and `--disarm` are `close false`,
  -- `--emergency-restore` is `close true`.
  unfoldable pub execute : Command → World host → World host
  unfolding cmd_arm cmd_renew cmd_close_session cmd_status cmd_recover_now cmd_audit cmd_daemon
      cmd_uninstall
  execute (arm ttl) w = (cmd_arm host ttl w).1
  execute (renew_session session ttl) w = (cmd_renew host session ttl w).1
  execute (close force) w = (cmd_close_session host force w).1
  execute show_status w = (cmd_status host w).1
  execute recover_now w = (cmd_recover_now host w).1
  execute audit w = (cmd_audit host w).1
  execute (daemon rounds) w = (cmd_daemon host rounds w).1
  execute (uninstall purge path) w = (cmd_uninstall host purge path w).1

  -- Each command takes the shield along an edge of its life cycle: arming leads from any other status
  -- to ARMED_TEMPORARY, a close or the daemon from there to RESTORED, uninstalling from anywhere to
  -- NOT_INSTALLED; and every command but uninstalling may stay where it is.
  pub execute-Edge :
      (c : Command) (w : World host) → Edge c (status host w) (status host (execute c w))
  unfolding execute cmd_arm cmd_renew cmd_close_session cmd_status cmd_recover_now cmd_daemon
  execute-Edge (arm ttl) w = arm_edge host ttl w.disk.state_file w refl
  execute-Edge (renew_session session ttl) w = renew_edge host session ttl w.disk.state_file w refl
  execute-Edge (close force) w = close_edge host force w.disk.state_file w refl
  execute-Edge show_status w = stays refl
  execute-Edge recover_now w =
      stays_at host (cmd_recover_now host w).1 refl
        (ap (λ d. d.0) (recover_with-saved (load_state host w).0 w))
  execute-Edge audit w = stays_at host (cmd_audit host w).1 refl (ap (λ d. d.0) (cmd_audit-saved w))
  execute-Edge (daemon rounds) w = daemon_edge rounds w.disk.state_file w refl
  execute-Edge (uninstall purge path) w =
      subst (λ f. Edge (uninstall purge path) (status host w) (status_of f))
        (sym (cmd_uninstall-missing purge path w)) removes
