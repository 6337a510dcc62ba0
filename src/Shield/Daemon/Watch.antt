-- ===== src/Shield/Daemon/Watch.antt =====
-- What a round of the daemon does to the state in memory and in its file.
use bootmux.Base.{
  ◌≡◌, refl, sym, ap, subst, ◌∙◌, ℕ, zero, suc, ◌≤◌, ◌<◌, true, not, Option, none, some, List, [],
  ◌∷◌, String, ◌==◌, arith, is_empty, if_case, if◌then◌else◌, ◌⊎◌, inl, inr,
}
use bootmux.Shield.Daemon.{watch, union, daemon_round, daemon_rounds, recover_logged}
use bootmux.Shield.Host.{Host}
use bootmux.Shield.Parse.{parse_default_route}
use bootmux.Shield.Recovery.{detect_new_external_ethernet}
use bootmux.Shield.Saved.Repair.{run_recovery-Keeps, detect-Keeps}
use bootmux.Shield.Session.{is_expired, baseline_of, closed, close_session}
use bootmux.Shield.Session.Close.{close_session_cases, Released, closed-Released}
use bootmux.Shield.World.{ShieldState, stored, World, exec, log, save_state}

-- The states differ in the untrusted interfaces at most.
abbrev pub SameButSeen : ShieldState → ShieldState → Type 0
SameButSeen s t = t ≡ record s { untrusted_interfaces = t.untrusted_interfaces }

pub SameButSeen-trans : (s t u : ShieldState) → SameButSeen s t → SameButSeen t u → SameButSeen s u
SameButSeen-trans s t u h k =
    k ∙ ap (λ (x : ShieldState). record x { untrusted_interfaces = u.untrusted_interfaces }) h

module _ (host : Host) where
  -- The state file holds the state.
  abbrev pub Holds : ShieldState → World host → Type 0
  Holds s w = w.disk.state_file ≡ stored s

  -- The state in memory has seen more at most, and is in the file unless nothing was saved.
  abbrev pub Seen : ShieldState → World host → ShieldState × World host → Type 0
  Seen s w (t, w') =
      SameButSeen s t × (((t ≡ s) × (w'.disk.state_file ≡ w.disk.state_file)) ⊎ Holds t w')

  recover_logged-file :
      (s : ShieldState) (ifaces : List String) (w : World host)
      → (recover_logged host s (baseline_of s) ifaces w).1.disk.state_file ≡ w.disk.state_file
  recover_logged-file s ifaces w =
      ap (λ d. d.0) (run_recovery-Keeps host (baseline_of s) ifaces (some s.session_id) w)

  watch-Seen : (s : ShieldState) (w : World host) → Seen s w (watch host s w)
  unfolding watch
  watch-Seen s w =
      let b = baseline_of s in
      let (found, w1) = detect_new_external_ethernet host b w in
      let seen = record s { untrusted_interfaces = union s.untrusted_interfaces found } in
      let (_, w2) = log host s.session_id "untrusted_detected" w1 in
      let (_, w3) = save_state host seen w2 in
      let (r, w4) = exec host ("route" ∷ "-n" ∷ "get" ∷ "default" ∷ []) w1 in
      let (_, w5) = log host s.session_id "route_drift" w4 in
      let kept = ap (λ d. d.0) (detect-Keeps host b w) in
      let drifted = (recover_logged host s b s.untrusted_interfaces w5).1 in
      if_case (Seen s w) (not (is_empty found)) (seen, (recover_logged host s b found w3).1)
        (if (parse_default_route r.stdout).1 == b.wifi_device then (s, w4) else (s, drifted))
        (λ _. (refl, inr (recover_logged-file s found w3)))
        (λ _.
          if_case (Seen s w) _ (s, w4) (s, drifted) (λ _. (refl, inl (refl, kept)))
            (λ _. (refl, inl (refl, recover_logged-file s s.untrusted_interfaces w5 ∙ kept))))

  abbrev pub Watched : ShieldState → ShieldState × World host → Type 0
  Watched s (t, w) = SameButSeen s t × Holds t w

  Seen-Watched :
      (s : ShieldState) (w : World host) (r : ShieldState × World host)
      → Holds s w
      → Seen s w r
      → Watched s r
  Seen-Watched s w (t, w') h (same, inl (e, kept)) = (same, kept ∙ h ∙ ap stored (sym e))
  Seen-Watched s w (t, w') h (same, inr held) = (same, held)

  pub watch-Watched : (s : ShieldState) (w : World host) → Holds s w → Watched s (watch host s w)
  watch-Watched s w h = Seen-Watched s w (watch host s w) h (watch-Seen s w)

  -- The machine once the daemon has slept for a round.
  abbrev pub slept : World host → World host
  slept w = record w { mac = host.sleep 250 w.mac }

  close_forced-closed :
      (s : ShieldState) (w : World host)
      → (close_session host s true w).1.disk.state_file ≡ stored (closed s)
  close_forced-closed s w = (close_session_cases host s true w).0

  -- A round that watches.
  abbrev pub went_on : ShieldState → World host → Option ShieldState × World host
  went_on s w = let (s', w') = watch host s (slept w) in (some s', w')

  abbrev pub RoundCases : ShieldState → World host → Option ShieldState × World host → Type 0
  RoundCases s w (next, w') =
      ((s.expires_at < host.now (slept w).mac) × (next ≡ none) × Holds (closed s) w')
      ⊎ ((host.now (slept w).mac ≤ s.expires_at) × ((next, w') ≡ went_on s w))

  -- The cases of a round, by the deadline of the state in memory.
  pub daemon_round_cases :
      (s : ShieldState) (w : World host) → s.armed ≡ true → RoundCases s w (daemon_round host s w)
  unfolding daemon_round is_expired
  daemon_round_cases s w on =
      let w1 = slept w in
      let (_, w2) = log host s.session_id "ttl_expired_auto_rollback" w1 in
      let late = close_forced-closed s w2 in
      if_case (RoundCases s w) (is_expired s (host.now w1.mac)) _ (went_on s w)
        (λ h. inl (ground arith, refl, late)) (λ h. inr (ground arith, refl))

  -- What a round comes to.
  abbrev pub RoundOutcome : ShieldState → World host → Option ShieldState × World host → Type 0
  RoundOutcome s w (next, w') =
      ((s.expires_at < host.now (slept w).mac) × (next ≡ none) × Released host s w')
      ⊎ ((host.now (slept w).mac ≤ s.expires_at)
          × ((t : ShieldState) × (next ≡ some t) × Seen s w (t, w')))

  -- A round of the daemon that wakes after the deadline of the state in its memory ends the loop, and
  -- the file holds that state, up to the untrusted interfaces, disarmed, marked as closed and without
  -- route, service or anchor, whatever the file held, a renewal of the session included. One that does
  -- not wake after it goes on with that state, up to the untrusted interfaces; and the file holds what it
  -- goes on with, or neither the state nor the file has changed.
  pub daemon_round-deadline :
      (s : ShieldState) (w : World host) → s.armed ≡ true → RoundOutcome s w (daemon_round host s w)
  daemon_round-deadline s w on = elim (daemon_round_cases s w on) [
    | inl (past, ended, held) ↦ inl (past, ended, closed-Released host s _ held)
    | inr (early, goes) ↦ inr (
      early,
      subst (λ r. (t : ShieldState) × (r.0 ≡ some t) × Seen s w (t, r.1)) (sym goes)
          (let (t, w') = watch host s (slept w) in (t, refl, watch-Seen s (slept w))),
    )
  ]

  abbrev pub after : ℕ → Option ShieldState × World host → World host
  after n (none, w) = w
  after n (some s, w) = (daemon_rounds host n s w).1

  after_elim :
      (n : ℕ) (r : Option ShieldState × World host)
      → after n r
        ≡ (elim r.0 as (λ _. Unit {0} × World host) [
          | none ↦ (tt, r.1)
          | some s ↦ daemon_rounds host n s r.1
        ]).1
  after_elim n (none, w) = refl
  after_elim n (some s, w) = refl

  pub after-none : (n : ℕ) (r : Option ShieldState × World host) → r.0 ≡ none → r.1 ≡ after n r
  after-none n (none, w) h = refl
  after-none n (some s, w) h = cc

  pub daemon_rounds-after :
      (n : ℕ) (s : ShieldState) (w : World host)
      → after n (daemon_round host s w) ≡ (daemon_rounds host (suc n) s w).1
  unfolding daemon_rounds
  daemon_rounds-after n s w = after_elim n (daemon_round host s w)

  -- What the file holds in the end: the state in the daemon's memory, closed or not.
  abbrev pub Ended : ShieldState → World host → Type 0
  Ended s w = (t : ShieldState) × SameButSeen s t × (Holds t w ⊎ Holds (closed t) w)

  Ended-same : (s t : ShieldState) (w : World host) → SameButSeen s t → Ended t w → Ended s w
  Ended-same s t w h (u, same, held) = (u, SameButSeen-trans s t u h same, held)

  pub daemon_rounds-Ended :
      (n : ℕ) (s : ShieldState) (w : World host)
      → s.armed ≡ true
      → Holds s w
      → Ended s (daemon_rounds host n s w).1
  unfolding daemon_rounds
  daemon_rounds-Ended zero s w on h = (s, refl, inl h)
  daemon_rounds-Ended (suc n) s w on h =
      subst (Ended s) (daemon_rounds-after n s w) (elim (daemon_round_cases s w on) [
        | inl (past, ended, held) ↦ subst (Ended s) (after-none n _ ended) (s, refl, inr held)
        | inr (early, goes) ↦
            subst (λ r. Ended s (after n r)) (sym goes)
              (let (s', w') = watch host s (slept w) in
                let (same, held) = watch-Watched s (slept w) h in
                Ended-same s s' (daemon_rounds host n s' w').1 same
                  (daemon_rounds-Ended n s' w' (ap (λ x. x.armed) same ∙ on) held))
      ])
