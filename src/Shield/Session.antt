-- ===== src/Shield/Session.antt =====
-- scripts/macos/bootmux-attach-shield.py: the life time of a session, and `close_session`.
pub mod Close
use bootmux.Base.{
  ℕ, ◌-◌, Bool, true, false, not, ◌&&◌, ◌||◌, Option, none, some, List, [], ◌∷◌, filter, String,
  ◌==◌, ltb, contains, is_empty, if◌then◌else◌,
}
use bootmux.Base.Dict.{get, keys}
use bootmux.Shield.Baseline.{Baseline, empty_baseline, given}
use bootmux.Shield.Fingerprint.{launchd_plist, capture_fingerprint, compare_fingerprints}
use bootmux.Shield.Host.{Host, ◌>>=◌, ◌>>◌, pure, when}
use bootmux.Shield.Journal.{open_journal, rollback}
use bootmux.Shield.Location.{restore_location}
use bootmux.Shield.Quarantine.Pin.{pf_anchor, unpin_split_routes}
use bootmux.Shield.Recovery.{get_current_interfaces}
use bootmux.Shield.World.{
  Fingerprint, ShieldState, Disk, World, Shield, do_exec, on_disk, log, save_state,
}

unfoldable pub is_expired : ShieldState → ℕ → Bool
is_expired s now = s.armed && ltb s.expires_at now

-- Truncated subtraction is `max(0.0, …)`.
abbrev pub ttl_remaining : ShieldState → ℕ → ℕ
ttl_remaining s now = s.expires_at - now

abbrev pub baseline_of : ShieldState → Baseline
baseline_of s = elim s.baseline [ none ↦ empty_baseline | some b ↦ b ]

-- The classification that `close_session` returns.
pub data Classification : Type 0 where
  refused_device_present : List String → Classification
  green_close_complete yellow_close_partial : Classification
  incomplete_rollback : List String → Classification

abbrev first_three : List String → List String
first_three (a ∷ b ∷ c ∷ more) = a ∷ b ∷ c ∷ []
first_three xs = xs

unfoldable pub classify : Bool → List String → Bool → Classification
classify ok issues equal =
    if is_empty issues
    then (if ok && equal then green_close_complete else yellow_close_partial)
    else incomplete_rollback (first_three issues)

-- The state that is saved in the end.
abbrev pub closed : ShieldState → ShieldState
closed s = record s {
  armed = false;
  session_closed = true;
  pinned_routes = [];
  pf_anchor_active = false;
  quarantined_services = [];
}

abbrev pub has_location : ShieldState → Bool
has_location s = s.location_mode && given s.original_location && given s.shield_location

module _ (host : Host) where
  -- The first four steps of a close: the daemon, the anchor, the filter, the routes
  unfoldable pub release : ShieldState → Shield host (Unit {0})
  unfolding when unpin_split_routes
  release s = do
    do_exec host ("launchctl" ∷ "unload" ∷ launchd_plist ∷ [])
    log host s.session_id "C1_daemon_stopped"
    do_exec host ("pfctl" ∷ "-a" ∷ pf_anchor ∷ "-F" ∷ "all" ∷ [])
    log host s.session_id "C2_pf_anchor_cleared"
    when (not s.pf_was_enabled) (do_exec host ("pfctl" ∷ "-d" ∷ []))
    log host s.session_id (if s.pf_was_enabled then "C3_pf_preserved" else "C3_pf_disabled")
    unpin_split_routes host s.pinned_routes
    log host s.session_id "C4_routes_removed"

  -- The return to the location of before.
  unfoldable pub go_back : ShieldState → Shield host (Unit {0})
  unfolding restore_location
  go_back s = do
    restored ← restore_location host s.session_id s.original_location s.shield_location
    log host s.session_id "C9_location_restored"

  -- The steps on the location.
  unfoldable pub leave_location : ShieldState → Shield host (Unit {0})
  unfolding when go_back
  leave_location s = do
    when (has_location s) (go_back s)
    log host s.session_id "C10_location_deleted"

  -- Whether the fingerprint of the session's start, where there is one, is that of now.
  unfoldable pub verify_fingerprint : String → Shield host Bool
  unfolding capture_fingerprint compare_fingerprints
  verify_fingerprint session = do
    after ← capture_fingerprint host
    before ← λ w. (get session w.disk.first_prints, w)
    log host session "C11_fingerprint_verify"
    pure (elim before [ none ↦ false | some fp ↦ is_empty (compare_fingerprints fp after) ])

  -- `close_session`, once it is not refused.
  unfoldable pub close_now : ShieldState → Shield host (Bool × Classification)
  unfolding release rollback leave_location verify_fingerprint
  close_now s = do
    log host s.session_id "close_session_start"
    release s
    issues ← rollback host s.session_id
    log host s.session_id "C5_C8_journal_rollback"
    leave_location s
    equal ← verify_fingerprint s.session_id
    save_state host (closed s)
    log host s.session_id "C12_session_closed"
    let ok = is_empty issues
    pure (ok && equal, classify ok issues equal)

  -- The untrusted interfaces of the session that are there now.
  unfoldable pub still_present : ShieldState → Shield host (List String)
  unfolding get_current_interfaces
  still_present s = do
    current ← get_current_interfaces host
    pure (filter (λ i. contains i (keys current)) s.untrusted_interfaces)

  -- The result is whether it succeeded, and the classification.
  unfoldable pub close_session : ShieldState → Bool → Shield host (Bool × Classification)
  unfolding open_journal close_now
  close_session s force w =
      let (_, w0) = open_journal host s.session_id w in
      let (still, w1) = still_present s w0 in
      if force || is_empty s.untrusted_interfaces
      then close_now s w0
      else if is_empty still
      then close_now s w1
      else ((false, refused_device_present still), w1)
