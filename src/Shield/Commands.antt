-- ===== src/Shield/Commands.antt =====
-- scripts/macos/bootmux-attach-shield.py: the commands of the command line. Of what a command prints
-- the answer is the part that says what it did; times are in milliseconds, a `ttl` in seconds.
pub mod Bounds
pub mod Lifecycle
pub mod Fresh
use bootmux.Shield.Answers.{
  Answer, already_armed, red_no_wifi_device, armed_as, not_armed, session_mismatch, not_installed,
  already_closed, renewed, close_result, no_baseline, recovery, uninstall_ok, Status, status_of,
}
use bootmux.Shield.Arm.{clamp_ttl, deadline, arm_new}
use bootmux.Base.{
  ℕ, ◌+◌, ◌*◌, ℤ, pos, negsuc, Bool, true, false, not, ◌&&◌, ◌||◌, Option, none, some, List, [],
  ◌∷◌, ◌++◌, String, ◌==◌, leb, is_empty, if◌then◌else◌,
}
use bootmux.Base.Dict.{put}
use bootmux.Shield.Baseline.{Baseline, given, capture_baseline, redacted}
use bootmux.Shield.Fingerprint.{launchd_plist, capture_fingerprint}
use bootmux.Shield.Host.{Host, ◌>>=◌, ◌>>◌, pure, when}
use bootmux.Shield.Journal.{open_journal}
use bootmux.Shield.Location.{location_supported, create_shield_location}
use bootmux.Shield.Quarantine.{QuarantineResult, quarantine_bootmux, identify_bootmux_services}
use bootmux.Shield.Quarantine.Pin.{pf_anchor, Pinning, unavailable, pinned, pin_split_routes}
use bootmux.Shield.Recovery.{Steps, RecoveryResult, run_recovery, detect_new_external_ethernet}
use bootmux.Shield.Session.{Classification, ttl_remaining, close_session}
use bootmux.Shield.World.{
  Fingerprint, ShieldState, StateFile, missing, corrupt, stored, Disk, Evidence, World, Shield,
  on_mac, exec, do_exec, on_disk, get_now, log, load_state, save_state,
}

module _ (host : Host) where
  -- `cmd_arm`, `cmd_renew` and the others that load the state, once it is loaded.
  unfoldable pub arm_with : ℤ → Option ShieldState → Shield host (ℕ × Answer)
  unfolding clamp_ttl arm_new
  arm_with ttl none w = arm_new host (clamp_ttl ttl) w
  arm_with ttl (some s) w =
      if s.armed then ((0, already_armed), w) else arm_new host (clamp_ttl ttl) w

  unfoldable pub cmd_arm : ℤ → Shield host (ℕ × Answer)
  unfolding arm_with
  cmd_arm ttl w = arm_with ttl (load_state host w).0 w

  -- `state.expires_at = …; state.ttl_seconds = …`
  abbrev pub renew : ShieldState → ℕ → ℕ → ShieldState
  renew s now ttl = record s { expires_at = deadline now ttl; ttl_seconds = ttl }

  unfoldable pub renew_with : String → ℤ → Option ShieldState → Shield host (ℕ × Answer)
  unfolding clamp_ttl
  renew_with session ttl none w = ((1, not_armed), w)
  renew_with session ttl (some s) w =
      if not s.armed
      then ((1, not_armed), w)
      else if s.session_id == session
      then (
        (0, renewed (clamp_ttl ttl)),
        (save_state host (renew s (host.now w.mac) (clamp_ttl ttl)) w).1,
      )
      else ((1, session_mismatch), w)

  unfoldable pub cmd_renew : String → ℤ → Shield host (ℕ × Answer)
  unfolding renew_with
  cmd_renew session ttl w = renew_with session ttl (load_state host w).0 w

  abbrev pub answer_close : (Bool × Classification) × World host → (ℕ × Answer) × World host
  answer_close ((success, c), w) = ((if success then 0 else 1, close_result c), w)

  unfoldable pub close_with : Bool → Option ShieldState → Shield host (ℕ × Answer)
  unfolding close_session
  close_with force none w = ((0, not_installed), w)
  close_with force (some s) w =
      if not s.armed
      then ((0, if s.session_closed then already_closed else not_armed), w)
      else answer_close (close_session host s force w)

  unfoldable pub cmd_close_session : Bool → Shield host (ℕ × Answer)
  unfolding close_with
  cmd_close_session force w = close_with force (load_state host w).0 w

  -- The status, and with a state, the state and what is left of its time.
  unfoldable pub cmd_status : Shield host (Status × Option (ShieldState × ℕ))
  cmd_status w = (
    (
      status_of w.disk.state_file,
      elim (load_state host w).0 [
        | none ↦ none
        | some s ↦ some (s, ttl_remaining s (host.now w.mac))
      ],
    ),
    w,
  )

  -- `cmd_recover_now`, with a baseline.
  unfoldable pub recover : ShieldState → Baseline → Shield host (ℕ × Answer)
  unfolding when open_journal detect_new_external_ethernet run_recovery
  recover s baseline w =
      let has_session = given s.session_id in
      let (_, w0) = when has_session (open_journal host s.session_id) w in
      let (found, w1) = detect_new_external_ethernet host baseline w0 in
      let (untrusted, w2) =
        if is_empty s.untrusted_interfaces then (found, w1) else (s.untrusted_interfaces, w0) in
      let (rr, w3) =
        run_recovery host baseline untrusted (if has_session then some s.session_id else none) w2 in
      ((if rr.classification == "GREEN" then 0 else 1, recovery rr), w3)

  unfoldable pub recover_from : ShieldState → Option Baseline → Shield host (ℕ × Answer)
  unfolding recover
  recover_from s none w = ((1, no_baseline), w)
  recover_from s (some b) w = recover s b w

  unfoldable pub recover_with : Option ShieldState → Shield host (ℕ × Answer)
  unfolding recover_from
  recover_with none w = ((1, no_baseline), w)
  recover_with (some s) w = recover_from s s.baseline w

  unfoldable pub cmd_recover_now : Shield host (ℕ × Answer)
  unfolding recover_with
  cmd_recover_now w = recover_with (load_state host w).0 w

  -- `cmd_audit`: the baseline that it prints redacted, whether locations are supported, the services
  -- found, and whether the shield is armed.
  unfoldable pub cmd_audit : Shield host (Baseline × Bool × List String × Bool)
  unfolding capture_baseline location_supported identify_bootmux_services redacted
  cmd_audit = do
    baseline ← on_mac host (capture_baseline host)
    supported ← location_supported host
    services ← identify_bootmux_services host baseline
    state ← load_state host
    pure (redacted baseline, supported, services, elim state [ none ↦ false | some s ↦ s.armed ])

  -- The evidence of a session, written where a path is given and there is a state.
  archive : String → Option ShieldState → Shield host (Unit {0})
  unfolding capture_fingerprint
  archive path none w = (tt, w)
  archive path (some s) w =
      let (after, w1) = capture_fingerprint host w in
      let report : Evidence = record {
        session_id = s.session_id;
        classification = s.classification;
        armed_at = s.armed_at;
        fingerprint_post = after;
      } in
      if given path
      then on_disk host (λ d. record d { evidence = put path report d.evidence }) w1
      else (tt, w)

  -- `remove_dir` of the state directory, or `remove_file` of the state.
  abbrev pub drop_state : Bool → Disk → Disk
  drop_state true d = record d { state_file = missing; journals = []; first_prints = []; logs = [] }
  drop_state false d = record d { state_file = missing }

  close_armed : Option ShieldState → Shield host (Unit {0})
  unfolding close_session
  close_armed none w = (tt, w)
  close_armed (some s) w =
      let (_, w') = close_session host s true w in if s.armed then (tt, w') else (tt, w)

  unfoldable pub cmd_uninstall : Bool → String → Shield host (ℕ × Answer)
  unfolding close_armed archive
  cmd_uninstall purge evidence_path = do
    state ← load_state host
    close_armed state
    archive evidence_path state
    do_exec host ("launchctl" ∷ "unload" ∷ launchd_plist ∷ [])
    do_exec host ("pfctl" ∷ "-a" ∷ pf_anchor ∷ "-F" ∷ "all" ∷ [])
    on_disk host λ d. drop_state purge (record d { plist = false; installed = false })
    pure (0, uninstall_ok)
