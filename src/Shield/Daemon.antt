-- ===== src/Shield/Daemon.antt =====
-- scripts/macos/bootmux-attach-shield.py: `daemon_loop` and `cmd_daemon`. The loop ends where the
-- session is closed or a signal comes; the number of rounds until the signal is an argument. The
-- child process that monitors routes has no reader and is left out.
pub mod Watch
pub mod Clock
pub mod Liveness
use bootmux.Base.{
  ℕ, zero, suc, Bool, true, false, not, ◌&&◌, ◌||◌, Option, none, some, List, [], ◌∷◌, ◌++◌, String,
  ◌==◌, contains, is_empty, if◌then◌else◌,
}
use bootmux.Shield.Baseline.{Baseline, given}
use bootmux.Shield.Host.{Reply, Host, ◌>>=◌, ◌>>◌, pure, when}
use bootmux.Shield.Journal.{open_journal}
use bootmux.Shield.Parse.{parse_default_route}
use bootmux.Shield.Recovery.{RecoveryResult, run_recovery, detect_new_external_ethernet}
use bootmux.Shield.Session.{is_expired, baseline_of, close_session}
use bootmux.Shield.World.{
  ShieldState, Disk, World, Shield, on_mac, exec, get_now, log, load_state, save_state,
}

-- `list(set(xs + ys))`, in the order of the first occurrence.
add_new : List String → List String → List String
add_new xs [] = xs
add_new xs (y ∷ ys) = add_new (if contains y xs then xs else xs ++ (y ∷ [])) ys

unfoldable pub union : List String → List String → List String
unfolding add_new
union xs ys = add_new [] (xs ++ ys)

module _ (host : Host) where
  abbrev close_forced : ShieldState → Shield host (Unit {0})
  close_forced s w = (tt, (close_session host s true w).1)

  -- Recovery, and its line in the log.
  abbrev pub recover_logged : ShieldState → Baseline → List String → Shield host (Unit {0})
  recover_logged s baseline ifaces w =
      let (rr, w') = run_recovery host baseline ifaces (some s.session_id) w in
      log host s.session_id "recovery" w'

  -- A round in which the session is not expired; the result is the state in memory.
  unfoldable pub watch : ShieldState → Shield host ShieldState
  unfolding detect_new_external_ethernet run_recovery
  watch s w =
      let baseline = baseline_of s in
      let (found, w1) = detect_new_external_ethernet host baseline w in
      let seen = record s { untrusted_interfaces = union s.untrusted_interfaces found } in
      let (_, w2) = log host s.session_id "untrusted_detected" w1 in
      let (_, w3) = save_state host seen w2 in
      let (r, w1') = exec host ("route" ∷ "-n" ∷ "get" ∷ "default" ∷ []) w1 in
      if not (is_empty found)
      then (seen, (recover_logged s baseline found w3).1)
      else if (parse_default_route r.stdout).1 == baseline.wifi_device
      then (s, w1')
      else (
        s,
        (recover_logged s baseline s.untrusted_interfaces
            (log host s.session_id "route_drift" w1').1).1,
      )

  -- A round: none where it ends the loop, else the state in memory.
  unfoldable pub daemon_round : ShieldState → Shield host (Option ShieldState)
  unfolding is_expired close_session watch
  daemon_round s w =
      let (_, w1) = on_mac host (λ m. (tt, host.sleep 250 m)) w in
      let (_, w2) = log host s.session_id "ttl_expired_auto_rollback" w1 in
      if is_expired s (host.now w1.mac)
      then (none, (close_forced s w2).1)
      else let (s', w') = watch s w1 in (some s', w')

  unfoldable pub daemon_rounds : ℕ → ShieldState → Shield host (Unit {0})
  unfolding daemon_round
  daemon_rounds zero s w = (tt, w)
  daemon_rounds (suc n) s w =
      let (next, w') = daemon_round s w in
      elim next [ none ↦ (tt, w') | some s' ↦ daemon_rounds n s' w' ]

  -- `daemon_loop`, for the log of the session, once the state is loaded.
  unfoldable pub loop_with : String → ℕ → Option ShieldState → Shield host (Unit {0})
  unfolding is_expired close_session open_journal daemon_rounds
  loop_with session rounds none w = log host session "daemon_exit" w
  loop_with session rounds (some s) w =
      let (_, w1) = open_journal host s.session_id w in
      let (_, w2) = log host session "daemon_start" w1 in
      let (_, w3) = daemon_rounds rounds s w2 in
      if not s.armed
      then log host session "daemon_exit" w
      else if is_expired s (host.now w.mac)
      then close_forced s (log host session "daemon_ttl_expired_on_start" w).1
      else log host session "daemon_stop" w3

  unfoldable pub daemon_loop : String → ℕ → Shield host (Unit {0})
  unfolding loop_with
  daemon_loop session rounds w = loop_with session rounds (load_state host w).0 w

  unfoldable pub daemon_with : ℕ → Option ShieldState → Shield host ℕ
  unfolding daemon_loop
  daemon_with rounds none w = (1, w)
  daemon_with rounds (some s) w =
      if given s.session_id then (0, (daemon_loop s.session_id rounds w).1) else (1, w)

  -- The exit code; it is 1 without a session.
  unfoldable pub cmd_daemon : ℕ → Shield host ℕ
  unfolding daemon_with
  cmd_daemon rounds w = daemon_with rounds (load_state host w).0 w
