-- ===== src/Shield/Saved/Setup.antt =====
-- The location, the quarantine and the pinned routes.
use bootmux.Base.{refl, ◌∙◌, Bool, true, false, List, [], ◌∷◌, ◌++◌, String, arith}
use bootmux.Shield.Arm.{isolate}
use bootmux.Shield.Baseline.{Baseline}
use bootmux.Shield.Host.{Host}
use bootmux.Shield.Journal.{note}
use bootmux.Shield.Location.{
  location_supported, enter_location, create_shield_location, restore_location,
}
use bootmux.Shield.Quarantine.{
  identify_bootmux_services, disable_services, remove_route, remove_line, remove_routes,
  order_wifi_first, quarantine_bootmux,
}
use bootmux.Shield.Quarantine.Pin.{
  pf_install_anchor, unpin_split_routes, unpin_added, pin_route, pin_v4, pin_v6, pin_split_routes,
  Pinning, unavailable, pinned, split_routes_v4, split_routes_v6,
}
use bootmux.Shield.Saved.{Keeps, if_Keeps}
use bootmux.Base.Lines.{split_words, split_lines}
use bootmux.Shield.World.{World, exec}

module _ (host : Host) where
  enter_location-Keeps :
      (session name original : String) (w : World host)
      → Keeps (enter_location host session name original w).1 w
  unfolding enter_location note
  enter_location-Keeps session name original w = ground arith

  create_shield_location-Keeps :
      (session : String) (w : World host) → Keeps (create_shield_location host session w).1 w
  unfolding create_shield_location note
  create_shield_location-Keeps session w =
      if_Keeps w _ _ _ (enter_location-Keeps session _ _ _) refl

  pub restore_location-Keeps :
      (session original shield_loc : String) (w : World host)
      → Keeps (restore_location host session original shield_loc w).1 w
  unfolding restore_location note
  restore_location-Keeps session original shield_loc w = ground arith

  pub identify-Keeps :
      (b : Baseline) (w : World host) → Keeps (identify_bootmux_services host b w).1 w
  unfolding identify_bootmux_services
  identify-Keeps b w = ground arith

  disable_services-Keeps :
      (session : String) (b : Baseline) (svcs : List String) (w : World host)
      → Keeps (disable_services host session b svcs w).1 w
  unfolding disable_services note
  disable_services-Keeps session b [] w = refl
  disable_services-Keeps session b (svc ∷ svcs) w = disable_services-Keeps session b svcs _

  remove_line-Keeps :
      (session : String) (words : List String) (w : World host)
      → Keeps (remove_line host session words w).1 w
  unfolding remove_line remove_route note
  remove_line-Keeps session [] w = refl
  remove_line-Keeps session (dest ∷ []) w = refl
  remove_line-Keeps session (dest ∷ gateway ∷ more) w = refl

  remove_routes-Keeps :
      (session : String) (lines : List String) (w : World host)
      → Keeps (remove_routes host session lines w).1 w
  unfolding remove_routes
  remove_routes-Keeps session [] w = refl
  remove_routes-Keeps session (line ∷ lines) w =
      remove_routes-Keeps session lines _
      ∙ if_Keeps w _ _ _ (remove_line-Keeps session (split_words line) w) refl

  order_wifi_first-Keeps :
      (session : String) (b : Baseline) (w : World host)
      → Keeps (order_wifi_first host session b w).1 w
  unfolding order_wifi_first note
  order_wifi_first-Keeps session b w = ground arith

  pub quarantine_bootmux-Keeps :
      (session : String) (b : Baseline) (w : World host)
      → Keeps (quarantine_bootmux host session b w).1 w
  unfolding quarantine_bootmux
  quarantine_bootmux-Keeps session b w =
      let (found, w1) = identify_bootmux_services host b w in
      let (disabled, w2) = disable_services host session b found w1 in
      let (table, w3) = exec host ("netstat" ∷ "-rn" ∷ []) w2 in
      let (removed, w4) = remove_routes host session (split_lines table.stdout) w3 in
      order_wifi_first-Keeps session b w4
      ∙ remove_routes-Keeps session (split_lines table.stdout) w3
      ∙ disable_services-Keeps session b found w1
      ∙ identify-Keeps b w

  pub pf_install_anchor-Keeps :
      (session iface : String) (was : Bool) (w : World host)
      → Keeps (pf_install_anchor host session iface was w).1 w
  unfolding pf_install_anchor note
  pf_install_anchor-Keeps session iface true w = refl
  pf_install_anchor-Keeps session iface false w = refl

  pub unpin_split_routes-Keeps :
      (routes : List String) (w : World host) → Keeps (unpin_split_routes host routes w).1 w
  unfolding unpin_split_routes
  unpin_split_routes-Keeps [] w = refl
  unpin_split_routes-Keeps (route ∷ routes) w = unpin_split_routes-Keeps routes _ ∙ ground arith

  unpin_added-Keeps :
      (gateway : String) (dests : List String) (w : World host)
      → Keeps (unpin_added host gateway dests w).1 w
  unfolding unpin_added
  unpin_added-Keeps gateway [] w = refl
  unpin_added-Keeps gateway (dest ∷ dests) w = unpin_added-Keeps gateway dests _

  pin_v4-Keeps :
      (session gateway : String) (added dests : List String) (w : World host)
      → Keeps (pin_v4 host session gateway added dests w).1 w
  unfolding pin_v4 pin_route note
  pin_v4-Keeps session gateway added [] w = refl
  pin_v4-Keeps session gateway added (dest ∷ dests) w =
      if_Keeps w _ _ _ (pin_v4-Keeps session gateway (added ++ (dest ∷ [])) dests _)
        (unpin_added-Keeps gateway added _)

  pin_v6-Keeps :
      (session gateway : String) (dests : List String) (w : World host)
      → Keeps (pin_v6 host session gateway dests w).1 w
  unfolding pin_v6 pin_route note
  pin_v6-Keeps session gateway [] w = refl
  pin_v6-Keeps session gateway (dest ∷ dests) w = pin_v6-Keeps session gateway dests _

  pinned_Keeps :
      (v4 : Pinning) (v6 : List String) (w w1 w2 : World host)
      → Keeps w1 w
      → Keeps w2 w
      → Keeps
          (elim v4 as (λ _. Pinning × World host) [
            | unavailable ↦ (unavailable, w1)
            | pinned routes ↦ (pinned (routes ++ v6), w2)
          ]).1
          w
  pinned_Keeps unavailable v6 w w1 w2 p q = p
  pinned_Keeps (pinned routes) v6 w w1 w2 p q = q

  pub pin_split_routes-Keeps :
      (session gateway interface : String) (w : World host)
      → Keeps (pin_split_routes host session gateway interface w).1 w
  unfolding pin_split_routes
  pin_split_routes-Keeps session gateway interface w = if_Keeps w _ _ _ refl (
      pinned_Keeps _ _ w _ _ (pin_v4-Keeps session gateway [] split_routes_v4 w) (
        pin_v6-Keeps session gateway split_routes_v6 _
        ∙ pin_v4-Keeps session gateway [] split_routes_v4 w))

  pub isolate-Keeps : (session : String) (w : World host) → Keeps (isolate host session w).1 w
  unfolding isolate location_supported
  isolate-Keeps session w = if_Keeps w _ _ _ (create_shield_location-Keeps session _) refl
