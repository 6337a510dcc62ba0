-- ===== src/Shield/Location.antt =====
-- scripts/macos/bootmux-attach-shield.py: the temporary network location of a session.
use bootmux.Base.{
  Bool, false, ◌&&◌, Option, none, some, List, [], ◌∷◌, String, ◌<>◌, text_in, contains,
  if◌then◌else◌,
}
use bootmux.Shield.Baseline.{get_current_location}
use bootmux.Shield.Host.{ok, Host, ◌>>=◌, pure}
use bootmux.Shield.Journal.{note}
use bootmux.Base.Lines.{split_lines}
use bootmux.Shield.World.{
  empty_pre, Shield, on_mac, exec, do_exec, location_create, location_switch,
}

abbrev shield_location_prefix : String
shield_location_prefix = "BOOTMUX-SHIELD-"

abbrev location_command : String → String → List String
location_command verb name = "networksetup" ∷ verb ∷ name ∷ []

module _ (host : Host) where
  unfoldable pub location_supported : Shield host Bool
  location_supported = do
    r ← exec host ("networksetup" ∷ "-help" ∷ [])
    let help = r.stdout <> r.stderr
    pure (
        text_in "-createlocation" help
        && text_in "-switchtolocation" help
        && text_in "-deletelocation" help)

  -- The second half of `create_shield_location`: the switch to the location, which is deleted where
  -- that fails.
  unfoldable pub enter_location : String → String → String → Shield host (Option String)
  enter_location session name original w =
      let switch = location_command "-switchtolocation" name in
      let (r, w') = exec host switch w in
      if ok r
      then (
        some name,
        (note host session location_switch "network_location"
            (some (record empty_pre { location = some original })) switch r.exit_code w').1,
      )
      else (none, (do_exec host (location_command "-deletelocation" name) w').1)

  unfoldable pub create_shield_location : String → Shield host (Option String)
  create_shield_location session w =
      let name = shield_location_prefix <> session in
      let (original, w1) = on_mac host (get_current_location host) w in
      let (listed, w2) = exec host ("networksetup" ∷ "-listlocations" ∷ []) w1 in
      let existed = contains name (split_lines listed.stdout) in
      let create = "networksetup" ∷ "-createlocation" ∷ name ∷ "populate" ∷ [] in
      let (r, w3) = exec host create w2 in
      if ok r
      then enter_location session name original
          (note host session location_create name
            (some (record empty_pre { existed = some existed })) create r.exit_code w3).1
      else (none, w3)

  -- `restore_location`, for the journal of the session.
  unfoldable pub restore_location : String → String → String → Shield host Bool
  restore_location session original shield_loc w =
      let switch = location_command "-switchtolocation" original in
      let (r, w1) = exec host switch w in
      let (_, w2) =
        note host session location_switch "network_location"
          (some (record empty_pre { location = some shield_loc })) switch r.exit_code w1 in
      let (deleted, w3) = exec host (location_command "-deletelocation" shield_loc) w2 in
      if ok r then (ok deleted, w3) else (false, w1)
