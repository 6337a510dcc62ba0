-- ===== src/Guardian/Daemon/Steps.antt =====
-- The ways in which a tick of the daemon can go, with what holds on each.
use bootmux.Base.{
  ℕ, ◌+◌, ◌≤◌, ◌≡◌, refl, ap, inl, inr, Bool, true, false, not, ◌&&◌, ◌||◌, Option, none, some,
  arith, any, leb, leb→le, Bool-cases, Option-cases, if◌then◌else◌,
}
use bootmux.Guardian.Baseline.{host_is_clean, capture_baseline}
use bootmux.Guardian.Data.{bootmux_peer}
use bootmux.Guardian.Daemon.{
  Guardian, Reason, heartbeat_loss, stale_route, usb_detached, Action, repairing, baseline_captured,
  store_valid, existing_baseline, since_or, Outcome, do_repair, forget_heartbeat, forget_attached,
  tick_attached, tick_unproven, tick_idle, capture_tick, act,
}
use bootmux.Guardian.Host.{Host}
use bootmux.Guardian.Identity.{prove_identity, bootmux_usb_present, via_peer}
use bootmux.Guardian.Repair.{Report, repair_once}
use bootmux.Guardian.Repair.Truthful.{repair_outcome}
use bootmux.Guardian.Store.{Store, Result, ok, raised, Result-cases, write_baseline}

module _ (host : Host) where
  -- What a repair's reason says of the host and the daemon.
  abbrev pub Cause : Guardian → host.State → Reason → Type 0
  Cause g s heartbeat_loss =
      ((prove_identity host s).proven ≡ true)
      × (host.heartbeat s bootmux_peer ≡ false)
      × (since_or g.heartbeat_fail_since (host.now s) + g.fail_limit ≤ host.now s)
  Cause g s stale_route =
      ((prove_identity host s).proven ≡ false)
      × ((prove_identity host s).ambiguous ≡ false)
      × (any via_peer (host.routes s) ≡ true)
  Cause g s usb_detached =
      ((prove_identity host s).proven ≡ false)
      × ((prove_identity host s).ambiguous ≡ false)
      × (g.was_attached ≡ true)
      × (bootmux_usb_present (host.usb_devices s) ≡ false)

  -- What one tick may do, from the daemon `g`, the store `st` and the host `s`.
  pub data Step (g : Guardian) (st : Store) (s : host.State) : Outcome host → Type 0 where
    -- The host, the store and the time of the last toggle stay as they are.
    quiet :
        (r : Result Action) (g' : Guardian)
        → g'.last_wifi_toggle_at ≡ g.last_wifi_toggle_at
        → ((reason : Reason) (report : Report) → r ≡ ok (repairing reason report) → ⊥)
        → (r ≡ ok baseline_captured → ⊥)
        → Step g st s (r, g', st, s)
    -- A repair, at a store and an identity that allow it.
    repairs :
        (reason : Reason) (report : Report) (g' : Guardian) (s' : host.State)
        → Cause g s reason
        → (repair_once host st (host.now s) g.last_wifi_toggle_at s).0 ≡ ok report
        → (repair_once host st (host.now s) g.last_wifi_toggle_at s).1 ≡ s'
        → g'.last_wifi_toggle_at
          ≡ (if report.toggled then some (host.now s) else g.last_wifi_toggle_at)
        → Step g st s (ok (repairing reason report), g', st, s')
    captures :
        (r : Result Action) (g' : Guardian) (st' : Store) (w : Result (Unit {0}))
        → g'.last_wifi_toggle_at ≡ g.last_wifi_toggle_at
        → (prove_identity host s).proven ≡ false
        → (prove_identity host s).ambiguous ≡ false
        → host_is_clean host (prove_identity host s) s ≡ true
        → existing_baseline st ≡ ok none
        → since_or g.stable_since (host.now s) + g.stability ≤ host.now s
        → write_baseline (capture_baseline host s) true st ≡ (w, st')
        → r ≡ elim w [ ok _ ↦ ok baseline_captured | raised e ↦ raised e ]
        → Step g st s (r, g', st', s)

  -- Both ways in which the callers of `do_repair` go on.
  repair-Step :
      (reason : Reason) (g g1 : Guardian) (st : Store) (s : host.State)
      → g1.last_wifi_toggle_at ≡ g.last_wifi_toggle_at
      → Cause g s reason
      → Step g st s (forget_heartbeat host (do_repair host (host.now s) reason g1 st s))
        × Step g st s (forget_attached host (do_repair host (host.now s) reason g1 st s))
  unfolding do_repair
  repair-Step reason g g1 st s same cause =
      elim (repair_outcome host st (host.now s) g1.last_wifi_toggle_at s) [
        | inl (report, e) ↦
            rw (e, do_repair)
              (
                Step.repairs reason report _ _ cause (rw (← same) e) (rw (← same) refl)
                    (ap (λ (t : Option ℕ). if report.toggled then some (host.now s) else t) same),
                Step.repairs reason report _ _ cause (rw (← same) e) (rw (← same) refl)
                    (ap (λ (t : Option ℕ). if report.toggled then some (host.now s) else t) same),
              )
        | inr (r, e, still) ↦
            rw (e, still, do_repair)
              (
                Step.quiet _ _ same (λ a b h. cc) (λ h. cc),
                Step.quiet _ _ same (λ a b h. cc) (λ h. cc),
              )
      ]

  module _ (g : Guardian) (st : Store) (s : host.State) where
    Step-if :
        (test : Bool) {x y : Outcome host}
        → (test ≡ true → Step g st s x)
        → (test ≡ false → Step g st s y)
        → Step g st s (if test then x else y)
    Step-if true f k = f refl
    Step-if false f k = k refl

    attached-Step :
        (prove_identity host s).proven ≡ true → Step g st s (tick_attached host (host.now s) g st s)
    unfolding tick_attached
    attached-Step proven =
        Step-if (host.heartbeat s bootmux_peer) (λ _. Step.quiet _ _ refl (λ a b h. cc) (λ h. cc))
          (λ silent.
            Step-if (leb (since_or g.heartbeat_fail_since (host.now s) + g.fail_limit) (host.now s))
              (λ late.
                (repair-Step heartbeat_loss g _ st s refl (proven, silent, leb→le _ _ late)).0)
              (λ _. Step.quiet _ _ refl (λ a b h. cc) (λ h. cc)))

    capture-Step :
        (g' : Guardian)
        → g'.last_wifi_toggle_at ≡ g.last_wifi_toggle_at
        → (prove_identity host s).proven ≡ false
        → (prove_identity host s).ambiguous ≡ false
        → existing_baseline st ≡ ok none
        → since_or g.stable_since (host.now s) + g.stability ≤ host.now s
        → Step g st s (capture_tick host (prove_identity host s) g' st s)
    unfolding capture_tick
    capture-Step g' same unproven sure fresh stable =
        let w = write_baseline (capture_baseline host s) true st in
        Step-if (host_is_clean host (prove_identity host s) s)
          (λ clean. elim (Result-cases w.0) [
            | inl (u, e) ↦
                rw e (
                  Step.captures _ g' w.1 w.0 same unproven sure clean fresh stable refl (rw e refl))
            | inr (x, e) ↦
                rw e (
                  Step.captures _ g' w.1 w.0 same unproven sure clean fresh stable refl (rw e refl))
          ])
          (λ _. Step.quiet _ _ same (λ a b h. cc) (λ h. cc))

    idle-Step :
        (g1 : Guardian)
        → g1.last_wifi_toggle_at ≡ g.last_wifi_toggle_at
        → g1.stable_since ≡ g.stable_since
        → g1.stability ≡ g.stability
        → (prove_identity host s).proven ≡ false
        → (prove_identity host s).ambiguous ≡ false
        → Step g st s (tick_idle host (prove_identity host s) (host.now s) g1 st s)
    unfolding tick_idle
    idle-Step g1 same since limit unproven sure = elim (Result-cases (existing_baseline st)) [
      | inl (none, e) ↦
          rw (e, tick_idle)
            (Step-if (leb (since_or g1.stable_since (host.now s) + g1.stability) (host.now s))
              (λ late.
                capture-Step _ same unproven sure e (rw (← since, ← limit) (leb→le _ _ late)))
              (λ _. Step.quiet _ _ same (λ a b h. cc) (λ h. cc)))
      | inl (some b, e) ↦ rw (e, tick_idle) (Step.quiet _ _ same (λ a b h. cc) (λ h. cc))
      | inr (r, e) ↦ rw (e, tick_idle) (Step.quiet _ _ same (λ a b h. cc) (λ h. cc))
    ]

    unproven-Step :
        (prove_identity host s).proven ≡ false
        → Step g st s (tick_unproven host (prove_identity host s) (host.now s) g st s)
    unfolding tick_unproven
    unproven-Step unproven =
        let stale = any via_peer (host.routes s) in
        let detached = g.was_attached && not (bootmux_usb_present (host.usb_devices s)) in
        Step-if (prove_identity host s).ambiguous (λ _. Step.quiet _ _ refl (λ a b h. cc) (λ h. cc))
          (λ sure.
            Step-if (stale || detached)
              (λ due. elim (Bool-cases stale) [
                | inl old ↦ rw old (repair-Step stale_route g _ st s refl (unproven, sure, old)).1
                | inr new ↦
                    rw new
                      (repair-Step usb_detached g _ st s refl
                        (unproven, sure, ground arith, ground arith)).1
              ])
              (λ _.
                idle-Step (record g { heartbeat_fail_since = none }) refl refl refl unproven sure))

    -- Every tick is one of these steps.
    pub act-Step : Step g st s (act host g st s)
    unfolding act
    act-Step = elim (Option-cases (store_valid st)) [
      | inl valid ↦
          rw (valid, act) (Step-if (prove_identity host s).proven attached-Step unproven-Step)
      | inr (e, bad) ↦ rw (bad, act) (Step.quiet _ _ refl (λ a b h. cc) (λ h. cc))
    ]
