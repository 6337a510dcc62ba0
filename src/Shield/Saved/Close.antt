-- ===== src/Shield/Saved/Close.antt =====
-- What a close keeps up to the comparison of the fingerprints.
use bootmux.Base.{refl, ap, ◌∙◌, [], ◌∷◌, String, not, if◌then◌else◌}
use bootmux.Shield.Fingerprint.{launchd_plist}
use bootmux.Shield.Quarantine.Pin.{pf_anchor}
use bootmux.Shield.Host.{Host, when}
use bootmux.Shield.Journal.{rollback}
use bootmux.Shield.Journal.Rollback.{rollback_lem}
use bootmux.Shield.Saved.{Keeps, when-Keeps, saved}
use bootmux.Shield.Saved.Setup.{restore_location-Keeps, unpin_split_routes-Keeps}
use bootmux.Shield.Session.{release, leave_location, go_back, has_location}
use bootmux.Shield.World.{World, log, do_exec, ShieldState}

module _ (host : Host) where
  pub release-Keeps : (s : ShieldState) (w : World host) → Keeps (release host s w).1 w
  unfolding release
  release-Keeps s w =
      let filter_off = do_exec host ("pfctl" ∷ "-d" ∷ []) in
      let (_, w1) = do_exec host ("launchctl" ∷ "unload" ∷ launchd_plist ∷ []) w in
      let (_, w2) = log host s.session_id "C1_daemon_stopped" w1 in
      let (_, w3) = do_exec host ("pfctl" ∷ "-a" ∷ pf_anchor ∷ "-F" ∷ "all" ∷ []) w2 in
      let (_, w4) = log host s.session_id "C2_pf_anchor_cleared" w3 in
      let (_, w5) = when (not s.pf_was_enabled) filter_off w4 in
      let (_, w6) =
        log host s.session_id (if s.pf_was_enabled then "C3_pf_preserved" else "C3_pf_disabled")
          w5 in
      unpin_split_routes-Keeps host s.pinned_routes w6
      ∙ when-Keeps (not s.pf_was_enabled) filter_off w4 refl

  pub rollback-Keeps : (session : String) (w : World host) → Keeps (rollback host session w).1 w
  rollback-Keeps session w = ap (λ r. saved r.1.disk) (rollback_lem host session w)

  pub leave_location-Keeps :
      (s : ShieldState) (w : World host) → Keeps (leave_location host s w).1 w
  unfolding leave_location go_back
  leave_location-Keeps s w =
      when-Keeps (has_location s) (go_back host s) w
        (restore_location-Keeps host s.session_id s.original_location s.shield_location w)
