-- ===== src/Shield/Commands/Fresh.antt =====
-- A session that is armed where no state file is.
use bootmux.Base.{
  ◌≡◌, refl, sym, ap, subst, ◌∙◌, ℕ, ℤ, Bool, true, false, ◌&&◌, ◌||◌, none, some, List, String,
  arith, eq_iff, contains, is_empty, if_case,
}
use bootmux.Base.Dict.{get, put, get-put}
use bootmux.Shield.Answers.{Answer, armed_as, red_no_wifi_device}
use bootmux.Shield.Arm.{clamp_ttl, arm_new, arm_session, isolate}
use bootmux.Shield.Baseline.{Baseline, given, capture_baseline}
use bootmux.Shield.Commands.{cmd_arm, arm_with}
use bootmux.Shield.Fingerprint.{
  capture_mac, capture_fingerprint, compare_fingerprints, state_file_path, state_exists,
}
use bootmux.Shield.Host.{Host}
use bootmux.Shield.Journal.{open_journal, rollback}
use bootmux.Shield.Quarantine.{quarantine_bootmux}
use bootmux.Shield.Quarantine.Pin.{pin_split_routes}
use bootmux.Shield.Recovery.{get_current_interfaces}
use bootmux.Shield.Saved.{Keeps}
use bootmux.Shield.Saved.Setup.{isolate-Keeps, quarantine_bootmux-Keeps, pin_split_routes-Keeps}
use bootmux.Shield.Saved.Close.{release-Keeps, rollback-Keeps, leave_location-Keeps}
use bootmux.Shield.Session.{
  Classification, still_present, close_session, close_now, release, leave_location,
  verify_fingerprint,
}
use bootmux.Shield.World.{
  Fingerprint, ShieldState, missing, stored, Disk, World, loaded, log, on_mac,
}
use bootmux.Shield.Fingerprint.Files.{contains-state_file, differs_in_files}

and_false : (a b : Bool) → b ≡ false → (a && b) ≡ false
and_false true b h = h
and_false false b h = refl

get-put_same :
    (session : String) (fp : Fingerprint) (d : List (String × Fingerprint))
    → get session (put session fp d) ≡ some fp
get-put_same session fp d = ground (arith, get-put session session fp d, eq_iff session session)

abbrev first_print : String → Fingerprint → Disk → Disk
first_print session fp d = record d { first_prints = put session fp d.first_prints }

module _ (host : Host) where
  -- The first fingerprint of the session is there, and does not list the state file.
  abbrev pub Unlisted : String → World host → Type 0
  Unlisted session w =
      (fp : Fingerprint) × (get session w.disk.first_prints ≡ some fp)
      × (contains state_file_path fp.shield_files ≡ false)

  Unlisted-saved :
      (session : String) (v w : World host) → Keeps v w → Unlisted session w → Unlisted session v
  Unlisted-saved session v w h (fp, there, out) = (fp, ap (λ d. get session d.1) h ∙ there, out)

  arm_session-Unlisted :
      (session : String) (b : Baseline) (n : ℕ) (w : World host)
      → state_exists w.disk.state_file ≡ false
      → Unlisted session (arm_session host session b n w).1
  unfolding arm_session
  arm_session-Unlisted session b n w none_there =
      let (fp, w1) = capture_fingerprint host w in
      let w2 = record w1 { disk = first_print session fp w1.disk } in
      let (location, w3) = isolate host session w2 in
      let (quarantine, w4) = quarantine_bootmux host session b w3 in
      let (_, w5) = log host session "quarantine" w4 in
      let (pinning, w6) = pin_split_routes host session b.gateway b.wifi_device w5 in
      let (_, w7) = log host session "route_pin" w6 in
      Unlisted-saved session w7 w2
        (pin_split_routes-Keeps host session b.gateway b.wifi_device w5
          ∙ quarantine_bootmux-Keeps host session b w3
          ∙ isolate-Keeps host session w2)
        (fp, get-put_same session fp w1.disk.first_prints, contains-state_file w.disk ∙ none_there)

  -- What a fresh `cmd_arm` leaves, by its answer.
  abbrev UnlistedBy : Answer → World host → Type 0
  UnlistedBy (armed_as c session) w = Unlisted session w
  UnlistedBy _ w = Unit

  arm_session-UnlistedBy :
      (session : String) (b : Baseline) (n : ℕ) (w : World host)
      → state_exists w.disk.state_file ≡ false
      → let (result, w') = arm_session host session b n w in UnlistedBy result.1 w'
  unfolding arm_session
  arm_session-UnlistedBy session b n w h = arm_session-Unlisted session b n w h

  arm_new-UnlistedBy :
      (n : ℕ) (w : World host)
      → w.disk.state_file ≡ missing
      → let (result, w') = arm_new host n w in UnlistedBy result.1 w'
  unfolding arm_new open_journal
  arm_new-UnlistedBy n w h =
      let (session, w1) = on_mac host host.uuid w in
      let (_, w2) = open_journal host session w1 in
      let (_, w3) = log host session "arm_start" w2 in
      let (b, w4) = on_mac host (capture_baseline host) w3 in
      if_case (λ (r : (ℕ × Answer) × World host). UnlistedBy r.0.1 r.1) (given b.wifi_device)
        (arm_session host session b n w4) ((1, red_no_wifi_device), w4)
        (λ _. arm_session-UnlistedBy session b n w4 (ap state_exists h)) (λ _. tt)

  cmd_arm-UnlistedBy :
      (ttl : ℤ) (w : World host)
      → w.disk.state_file ≡ missing
      → let (result, w') = cmd_arm host ttl w in UnlistedBy result.1 w'
  unfolding cmd_arm arm_with
  cmd_arm-UnlistedBy ttl w h =
      subst (λ f. let (result, w') = arm_with host ttl (loaded f) w in UnlistedBy result.1 w')
        (sym h) (arm_new-UnlistedBy (clamp_ttl ttl) w h)

  verify-fails :
      (session : String) (t : ShieldState) (w : World host)
      → Unlisted session w
      → w.disk.state_file ≡ stored t
      → (verify_fingerprint host session w).0 ≡ false
  unfolding verify_fingerprint capture_fingerprint capture_mac
  verify-fails session t w (fp, there, out) h =
      let after = (capture_fingerprint host w).0 in
      subst
        (λ o.
          (elim o as (λ _. Bool) [
            | none ↦ false
            | some before ↦ is_empty (compare_fingerprints before after)
          ])
          ≡ false)
        (sym there) (differs_in_files fp after w.disk out refl (ap state_exists h))

  close_now-fails :
      (s t : ShieldState) (w : World host)
      → Unlisted s.session_id w
      → w.disk.state_file ≡ stored t
      → (close_now host s w).0.0 ≡ false
  unfolding close_now
  close_now-fails s t w out h =
      let session = s.session_id in
      let (_, w1) = log host session "close_session_start" w in
      let (_, w2) = release host s w1 in
      let (issues, w3) = rollback host session w2 in
      let (_, w4) = log host session "C5_C8_journal_rollback" w3 in
      let (_, w5) = leave_location host s w4 in
      let kept =
        leave_location-Keeps host s w4 ∙ rollback-Keeps host session w2 ∙ release-Keeps host s w1 in
      and_false (is_empty issues) (verify_fingerprint host session w5).0
        (verify-fails session t w5 (Unlisted-saved session w5 w kept out) (ap (λ d. d.0) kept ∙ h))

  close_session-fails :
      (s t : ShieldState) (force : Bool) (w : World host)
      → Unlisted s.session_id w
      → w.disk.state_file ≡ stored t
      → (close_session host s force w).0.0 ≡ false
  unfolding close_session open_journal still_present get_current_interfaces
  close_session-fails s t force w out h =
      let (_, w0) = open_journal host s.session_id w in
      let (still, w1) = still_present host s w0 in
      let P = λ (r : (Bool × Classification) × World host). r.0.0 ≡ false in
      if_case P (force || is_empty s.untrusted_interfaces) _ _ (λ _. close_now-fails s t w0 out h)
        λ _. if_case P (is_empty still) _ _ (λ _. close_now-fails s t w1 out h) (λ _. refl)

  -- Where no state file was there when a session was armed, no later close of the session succeeds,
  -- forced or not, as long as its first fingerprint is kept and a state is saved.
  pub close_session-fresh :
      (ttl : ℤ) (w v : World host) (s t : ShieldState) (force : Bool) {c : String}
      → w.disk.state_file ≡ missing
      → (cmd_arm host ttl w).0.1 ≡ armed_as c s.session_id
      → v.disk.first_prints ≡ (cmd_arm host ttl w).1.disk.first_prints
      → v.disk.state_file ≡ stored t
      → (close_session host s force v).0.0 ≡ false
  close_session-fresh ttl w v s t force none_there answer kept there =
      let (fp, found, out) =
        subst (λ a. UnlistedBy a (cmd_arm host ttl w).1) answer
          (cmd_arm-UnlistedBy ttl w none_there) in
      close_session-fails s t force v (fp, ap (get s.session_id) kept ∙ found, out) there
