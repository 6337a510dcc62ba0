-- ===== src/Shield/Daemon/Liveness.antt =====
-- The daemon closes an armed session in time.
use bootmux.Base.{◌≡◌, sym, ap, subst, ◌∙◌, ℕ, zero, suc, ◌+◌, ◌*◌, ◌≤◌, ◌<◌, true, arith, inl, inr}
use bootmux.Shield.Daemon.{watch, daemon_rounds}
use bootmux.Shield.Daemon.Clock.{Clock, watch-Later}
use bootmux.Shield.Daemon.Watch.{
  SameButSeen, Holds, after, after-none, daemon_rounds-after, slept, went_on, watch-Watched,
  daemon_round_cases,
}
use bootmux.Shield.Host.{Host}
use bootmux.Shield.Session.Close.{Released, closed-Released}
use bootmux.Shield.World.{ShieldState, World}

module _ (host : Host) (clock : Clock host) where
  Released-same :
      (s t : ShieldState) (w : World host) → SameButSeen s t → Released host t w → Released host s w
  Released-same s t w same r = record {
    state = r.state;
    saved = r.saved;
    disarmed = r.disarmed;
    marked = r.marked;
    no_route = r.no_route;
    no_service = r.no_service;
    no_anchor = r.no_anchor;
    rest =
        r.rest
        ∙ ap
            (λ (x : ShieldState). record x {
              armed = r.state.armed;
              session_closed = r.state.session_closed;
              pinned_routes = r.state.pinned_routes;
              pf_anchor_active = r.state.pf_anchor_active;
              quarantined_services = r.state.quarantined_services;
              untrusted_interfaces = r.state.untrusted_interfaces;
            })
            same;
  }

  -- A round from which the rest closes, closes.
  round_Released :
      (n : ℕ) (s : ShieldState) (w : World host)
      → s.armed ≡ true
      → (host.now (slept host w).mac ≤ s.expires_at
          → Released host s (after host n (went_on host s w)))
      → Released host s (daemon_rounds host (suc n) s w).1
  round_Released n s w on next =
      subst (Released host s) (daemon_rounds-after host n s w)
        (elim (daemon_round_cases host s w on) [
          | inl (past, ended, held) ↦
              subst (Released host s) (after-none host n _ ended) (closed-Released host s _ held)
          | inr (early, goes) ↦
              subst (λ r. Released host s (after host n r)) (sym goes) (next early)
        ])

  expires_later :
      (now rounds : ℕ) (s t : ShieldState) {then later : ℕ}
      → t.expires_at ≡ s.expires_at
      → s.expires_at < now + 250 * suc (suc rounds)
      → now + 250 ≤ then
      → then ≤ later
      → t.expires_at < later + 250 * suc rounds
  expires_later now rounds s t same late waited slow = omega arith

  no_round_left :
      (s : ShieldState) (w : World host)
      → s.expires_at < host.now w.mac + 250 * 1
      → host.now (slept host w).mac ≤ s.expires_at
      → ⊥
  no_round_left s w late early = omega (arith, clock.sleeps 250 w.mac)

  -- Where the clock does not go back, the file holds the armed state in the daemon's memory, and no
  -- signal comes for as many rounds as take the clock past the deadline, the daemon ends with the
  -- session closed: the file holds that state, up to the untrusted interfaces, disarmed, marked as
  -- closed and without route, service or anchor.
  pub daemon_rounds-closes :
      (n : ℕ) (s : ShieldState) (w : World host)
      → s.armed ≡ true
      → Holds host s w
      → s.expires_at < host.now w.mac + 250 * suc n
      → Released host s (daemon_rounds host (suc n) s w).1
  daemon_rounds-closes zero s w on h late =
      round_Released zero s w on λ early. elim (no_round_left s w late early) [ ]
  daemon_rounds-closes (suc n) s w on h late = round_Released (suc n) s w on λ early.
      let (s', w') = watch host s (slept host w) in
      let (same, held) = watch-Watched host s (slept host w) h in
      let slow = watch-Later host clock s (slept host w) in
      let waited = clock.sleeps 250 w.mac in
      Released-same s s' (daemon_rounds host (suc n) s' w').1 same (
        daemon_rounds-closes n s' w' (ap (λ x. x.armed) same ∙ on) held
          (expires_later (host.now w.mac) n s s' (ap (λ x. x.expires_at) same) late waited slow))
