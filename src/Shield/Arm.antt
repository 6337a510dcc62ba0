-- ===== src/Shield/Arm.antt =====
-- scripts/macos/bootmux-attach-shield.py: the life time that is given to a session, and `cmd_arm` where
-- no session is armed. Times are in milliseconds, a `ttl` in seconds.
use bootmux.Shield.Answers.{Answer, red_no_wifi_device, armed_as}
use bootmux.Base.{
  ℕ, ◌+◌, ◌*◌, ℤ, pos, negsuc, Bool, true, false, Option, none, some, List, [], String, leb,
  if◌then◌else◌,
}
use bootmux.Base.Dict.{put}
use bootmux.Shield.Baseline.{Baseline, given, or_blank, capture_baseline}
use bootmux.Shield.Fingerprint.{capture_fingerprint}
use bootmux.Shield.Host.{Host, ◌>>=◌, ◌>>◌, pure}
use bootmux.Shield.Journal.{open_journal}
use bootmux.Shield.Location.{location_supported, create_shield_location}
use bootmux.Shield.Quarantine.{quarantine_bootmux}
use bootmux.Shield.Quarantine.Pin.{Pinning, unavailable, pinned, pin_split_routes}
use bootmux.Shield.World.{ShieldState, Shield, on_mac, on_disk, get_now, log, save_state}

abbrev min_ttl_s : ℕ
min_ttl_s = 60

abbrev max_ttl_s : ℕ
max_ttl_s = 7200

-- `max(MIN_TTL_S, min(ttl, MAX_TTL_S))`
unfoldable pub clamp_ttl : ℤ → ℕ
clamp_ttl (negsuc n) = min_ttl_s
clamp_ttl (pos n) = if leb n min_ttl_s then min_ttl_s else if leb n max_ttl_s then n else max_ttl_s

abbrev pub deadline : ℕ → ℕ → ℕ
deadline now ttl = now + 1000 * ttl

abbrev is_pinned : Pinning → Bool
is_pinned unavailable = false
is_pinned (pinned routes) = true

abbrev routes_of : Pinning → List String
routes_of unavailable = []
routes_of (pinned routes) = routes

abbrev is_some : Option String → Bool
is_some none = false
is_some (some s) = true

-- The state that `cmd_arm` saves.
abbrev new_state : String → Baseline → Option String → List String → Pinning → ℕ → ℕ → ShieldState
new_state session baseline location disabled pinning now ttl = record {
  armed = true;
  session_id = session;
  baseline = some baseline;
  pinned_routes = routes_of pinning;
  quarantined_services = disabled;
  untrusted_interfaces = [];
  pf_anchor_active = false;
  pf_was_enabled = baseline.pf_enabled;
  armed_at = now;
  expires_at = deadline now ttl;
  ttl_seconds = ttl;
  classification = if is_pinned pinning then "GREEN" else "YELLOW_ROUTE_PIN_UNAVAILABLE";
  shield_location = or_blank location;
  original_location = baseline.network_location;
  location_mode = is_some location;
  session_closed = false;
}

module _ (host : Host) where
  -- The location of the session, where there is one.
  unfoldable pub isolate : String → Shield host (Option String)
  unfolding location_supported create_shield_location
  isolate session w =
      let (supported, w1) = location_supported host w in
      let (location, w2) = create_shield_location host session w1 in
      if supported
      then (
        location,
        (log host session (if is_some location then "location_isolation" else "location_fallback")
            w2).1,
      )
      else (none, (log host session "location_fallback" w1).1)

  -- `cmd_arm`, from the fingerprint on.
  unfoldable pub arm_session : String → Baseline → ℕ → Shield host (ℕ × Answer)
  unfolding capture_fingerprint isolate quarantine_bootmux pin_split_routes
  arm_session session baseline ttl = do
    before ← capture_fingerprint host
    on_disk host λ d. record d { first_prints = put session before d.first_prints }
    location ← isolate session
    quarantine ← quarantine_bootmux host session baseline
    log host session "quarantine"
    pinning ← pin_split_routes host session baseline.gateway baseline.wifi_device
    log host session "route_pin"
    now ← get_now host
    let state = new_state session baseline location quarantine.services_disabled pinning now ttl
    save_state host state
    log host session "arm_complete"
    pure (0, armed_as state.classification session)

  -- `cmd_arm`, where no session is armed.
  unfoldable pub arm_new : ℕ → Shield host (ℕ × Answer)
  unfolding open_journal capture_baseline arm_session
  arm_new ttl w =
      let (session, w1) = on_mac host host.uuid w in
      let (_, w2) = open_journal host session w1 in
      let (_, w3) = log host session "arm_start" w2 in
      let (baseline, w4) = on_mac host (capture_baseline host) w3 in
      if given baseline.wifi_device
      then arm_session session baseline ttl w4
      else ((1, red_no_wifi_device), w4)
