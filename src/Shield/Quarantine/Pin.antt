-- ===== src/Shield/Quarantine/Pin.antt =====
-- The anchor of the packet filter, and the split routes that are pinned to Wi-Fi's gateway.
use bootmux.Base.{
  text_in, ◌&&◌, Bool, false, not, ◌||◌, none, some, List, [], ◌∷◌, ◌++◌, String, ◌<>◌,
  if◌then◌else◌,
}
use bootmux.Shield.Baseline.{given}
use bootmux.Shield.Host.{ok, Host, ◌>>=◌, ◌>>◌, pure, when}
use bootmux.Shield.Journal.{note, unpin_command, route_command}
use bootmux.Shield.World.{
  empty_pre, Shield, on_mac, exec, do_exec, route_add, pf_anchor_load, pf_enable,
}

abbrev pub pf_anchor : String
pf_anchor = "com.bootmux.attach-shield"

pf_anchor_rules : String → String
pf_anchor_rules interface =
    "# " <> pf_anchor <> " — auto-generated\nblock drop quick on " <> interface <> " all\n"

abbrev pub split_routes_v4 : List String
split_routes_v4 = "0.0.0.0/1" ∷ "128.0.0.0/1" ∷ []

abbrev pub split_routes_v6 : List String
split_routes_v6 = "::/1" ∷ "8000::/1" ∷ []

-- Whether every route of IPv4 was pinned, and the routes that are.
pub data Pinning : Type 0 where
  unavailable : Pinning
  pinned : List String → Pinning

module _ (host : Host) where
  -- `pf_install_anchor`, for the journal of the session.
  unfoldable pub pf_install_anchor : String → String → Bool → Shield host Bool
  unfolding when pf_anchor_rules
  pf_install_anchor session interface pf_was_enabled = do
    let path = "/tmp/" <> pf_anchor <> "-" <> interface <> ".rules"
    let load = "pfctl" ∷ "-a" ∷ pf_anchor ∷ "-f" ∷ path ∷ []
    on_mac host (λ m. (tt, host.write_file path (pf_anchor_rules interface) m))
    r ← exec host load
    on_mac host (λ m. (tt, host.remove_file path m))
    note host session pf_anchor_load pf_anchor (some (record empty_pre { rules = some "" })) load
        r.exit_code
    when (not pf_was_enabled) (do
      let enable = "pfctl" ∷ "-E" ∷ []
      r2 ← exec host enable
      note host session pf_enable "pf" (some (record empty_pre { enabled = some false })) enable
          r2.exit_code)
    pure (ok r)

  -- `pf_remove_anchor`, for the journal of the session.
  pf_remove_anchor : String → Bool → Shield host Bool
  unfolding when
  pf_remove_anchor session pf_was_enabled = do
    let flush = "pfctl" ∷ "-a" ∷ pf_anchor ∷ "-F" ∷ "all" ∷ []
    r ← exec host flush
    note host session pf_anchor_load pf_anchor (some (record empty_pre { rules = some "flushed" }))
        flush r.exit_code
    when (not pf_was_enabled) (do_exec host ("pfctl" ∷ "-d" ∷ []))
    pure (ok r)

  pf_anchor_active : Shield host Bool
  pf_anchor_active = do
    r ← exec host ("pfctl" ∷ "-a" ∷ pf_anchor ∷ "-s" ∷ "rules" ∷ [])
    pure (ok r && text_in "block" r.stdout)

  unfoldable pub unpin_split_routes : List String → Shield host (Unit {0})
  unfolding unpin_command
  unpin_split_routes [] w = (tt, w)
  unpin_split_routes (route ∷ routes) w =
      unpin_split_routes routes
        (elim (unpin_command route) [ none ↦ w | some cmd ↦ (do_exec host cmd w).1 ])

  -- `for pinned in rp.pinned_routes: …`, where a route of IPv4 could not be added.
  unfoldable pub unpin_added : String → List String → Shield host (Unit {0})
  unpin_added gateway [] w = (tt, w)
  unpin_added gateway (dest ∷ dests) w =
      unpin_added gateway dests (do_exec host (route_command "delete" "-net" dest gateway) w).1

  -- A route that is added and noted.
  unfoldable pub pin_route : String → String → String → String → String → Shield host Bool
  pin_route session gateway family flag dest w =
      let cmd = route_command "add" flag dest gateway in
      let (r, w1) = exec host cmd w in
      let entry = family <> " " <> dest <> " via " <> gateway in
      (
        ok r,
        (note host session route_add entry (some (record empty_pre { existed = some false })) cmd
            r.exit_code w1).1,
      )

  abbrev pinned_entry : String → String → String → String
  pinned_entry family dest gateway = family <> " " <> dest <> " via " <> gateway

  -- The loop over the routes of IPv4; `added` are the destinations that it has added.
  unfoldable pub pin_v4 : String → String → List String → List String → Shield host Pinning
  unfolding pin_route unpin_added
  pin_v4 session gateway added [] w = (pinned [], w)
  pin_v4 session gateway added (dest ∷ dests) w =
      let (good, w1) = pin_route session gateway "inet" "-net" dest w in
      let (rest, w2) = pin_v4 session gateway (added ++ (dest ∷ [])) dests w1 in
      if good
      then (
        elim rest [
          | unavailable ↦ unavailable
          | pinned entries ↦ pinned (pinned_entry "inet" dest gateway ∷ entries)
        ],
        w2,
      )
      else (unavailable, (unpin_added gateway added w1).1)

  -- The loop over the routes of IPv6: the entries of those that were added.
  unfoldable pub pin_v6 : String → String → List String → Shield host (List String)
  unfolding pin_route
  pin_v6 session gateway [] w = ([], w)
  pin_v6 session gateway (dest ∷ dests) w =
      let (good, w1) = pin_route session gateway "inet6" "-inet6" dest w in
      let (rest, w2) = pin_v6 session gateway dests w1 in
      ((if good then pinned_entry "inet6" dest gateway ∷ rest else rest), w2)

  -- `pin_split_routes`: `pinned` where its classification is GREEN.
  unfoldable pub pin_split_routes : String → String → String → Shield host Pinning
  unfolding pin_v4 pin_v6
  pin_split_routes session gateway interface w =
      let (v4, w1) = pin_v4 session gateway [] split_routes_v4 w in
      let (v6, w2) = pin_v6 session gateway split_routes_v6 w1 in
      if not (given gateway) || not (given interface)
      then (unavailable, w)
      else elim v4 [ unavailable ↦ (unavailable, w1) | pinned routes ↦ (pinned (routes ++ v6), w2) ]
