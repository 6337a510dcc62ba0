-- ===== src/Guardian/Daemon/Safety.antt =====
-- What the daemon keeps to on every tick and over every run.
use bootmux.Base.{
  ℕ, ◌+◌, ◌≤◌, ◌≡◌, refl, ap, subst, ◌∙◌, ◌⊎◌, inl, inr, Bool, true, false, Option, none, some,
  List, [], ◌∷◌, arith, Bool-cases, Option-cases, if◌then◌else◌,
}
use bootmux.Guardian.Baseline.{host_is_clean, capture_baseline}
use bootmux.Guardian.Data.{wifi_toggle_cooldown}
use bootmux.Guardian.Daemon.{
  Guardian, Mode, Reason, heartbeat_loss, Action, repairing, baseline_captured, TickReport, stamp,
  existing_baseline, since_or, Outcome, act, tick, run_daemon,
}
use bootmux.Guardian.Daemon.Steps.{Cause, Step, act-Step}
use bootmux.Guardian.Host.{Host}
use bootmux.Guardian.Identity.{prove_identity}
use bootmux.Guardian.Plan.Toggle.{cooling}
use bootmux.Guardian.Repair.{Report}
use bootmux.Guardian.Repair.Truthful.{repair_once-toggled}
use bootmux.Guardian.Store.{Store, Result, ok, raised, Result-cases}
use bootmux.Guardian.Store.RoundTrip.{Owns, Holds, read_baseline-write_baseline}

-- A tick at time `t` that toggles keeps the cooldown after the last one.
abbrev pub Cooled : Option ℕ → ℕ → Type 0
Cooled none t = Unit
Cooled (some last) t = last + wifi_toggle_cooldown ≤ t

abbrev pub Spaced : Option ℕ → List ℕ → Type 0
Spaced last [] = Unit
Spaced last (t ∷ times) = Cooled last t × Spaced (some t) times

abbrev toggled_in : Action → Bool
toggled_in (repairing _ report) = report.toggled
toggled_in _ = false

-- The times of the ticks that report a Wi-Fi toggle.
abbrev pub toggle_times : List TickReport → List ℕ
toggle_times [] = []
toggle_times (r ∷ reports) =
    let rest = toggle_times reports in if toggled_in r.action then r.time ∷ rest else rest

cooling-Cooled : (now : ℕ) (last : Option ℕ) → cooling now last ≡ false → Cooled last now
unfolding cooling
cooling-Cooled now none h = tt
cooling-Cooled now (some t) h = ground arith

module _ (host : Host) where
  -- What holds of a tick's outcome, read off the step that it is.
  abbrev Moved : Guardian → Store → host.State → Outcome host → Type 0
  Moved g st s (r, g', st', s') =
      (s' ≡ s)
      ⊎ ((reason : Reason) × (report : Report) × (r ≡ ok (repairing reason report))
          × Cause host g s reason)

  Step-Moved :
      {g : Guardian} {st : Store} {s : host.State} {o : Outcome host}
      → Step host g st s o
      → Moved g st s o
  Step-Moved (Step.quiet r g' same a b) = inl refl
  Step-Moved (Step.repairs reason report g' s' cause e f same) = inr (reason, report, refl, cause)
  Step-Moved (Step.captures r g' st' w a b c d e f k l) = inl refl

  -- A tick changes the host only in a repair that it reports, and a repair has its cause: a proven
  -- device whose heartbeat has been missing for the limit, or, on an identity that is neither proven
  -- nor ambiguous, a route through BOOTMUX's gateway or a device that was attached and is gone. A
  -- tick that raises changes nothing.
  pub tick-changes_host :
      (g : Guardian) (st : Store) (s : host.State)
      → let (r, g', st', s') = tick host g st s in
        (s' ≡ s)
        ⊎ ((reason : Reason) × (report : Report) × (r
              ≡ ok (record { time = host.now s; mode = g.mode; action = repairing reason report }))
            × Cause host g s reason)
  unfolding tick
  tick-changes_host g st s = elim (Step-Moved (act-Step host g st s)) [
    | inl same ↦ inl same
    | inr (reason, report, e, cause) ↦ inr (reason, report, ap (stamp (host.now s) g.mode) e, cause)
  ]

  Step-Cause :
      {g : Guardian} {st : Store} {s : host.State} {o : Outcome host}
      → Step host g st s o
      → {reason : Reason} {report : Report} → o.0 ≡ ok (repairing reason report)
      → Cause host g s reason
  Step-Cause (Step.quiet r g' same a b) h = absurd (a _ _ h)
  Step-Cause {g} {s} (Step.repairs reason report g' s' cause e f same) {reason = other} h =
      let e : reason ≡ other = cc in subst (Cause host g s) e cause
  Step-Cause (Step.captures r g' st' (ok w) a b c d e f k l) h = cc
  Step-Cause (Step.captures r g' st' (raised w) a b c d e f k l) h = cc

  stamp-ok :
      (now : ℕ) (mode : Mode) (r : Result Action) {report : TickReport}
      → stamp now mode r ≡ ok report
      → (r ≡ ok report.action) × (report.time ≡ now)
  stamp-ok now mode (ok a) h = ground arith
  stamp-ok now mode (raised e) h = cc

  -- One missed heartbeat repairs nothing: where the limit is not zero, a repair for heartbeat loss
  -- has an earlier tick's time on record, from which the limit has run out.
  pub tick-heartbeat :
      (g : Guardian) (st : Store) (s : host.State) {report : TickReport} {rep : Report}
      → 1 ≤ g.fail_limit
      → (tick host g st s).0 ≡ ok report
      → report.action ≡ repairing heartbeat_loss rep
      → (t : ℕ) × (g.heartbeat_fail_since ≡ some t) × (t + g.fail_limit ≤ host.now s)
  unfolding tick
  tick-heartbeat g st s {rep} positive h e =
      let (same, time) = stamp-ok _ _ (act host g st s).0 h in
      let (proven, silent, late) =
        Step-Cause (act-Step host g st s) {reason = heartbeat_loss} {report = rep} (cc same) in
      elim (Option-cases g.heartbeat_fail_since) [
        | inl fresh ↦ absurd (let l = rw fresh at late in omega arith)
        | inr (t, old) ↦ (t, old, rw old at late)
      ]

  toggle-Spaced :
      {g : Guardian} {st : Store} {s : host.State} {o : Outcome host}
      → Step host g st s o
      → (times : List ℕ) → Spaced (o.1).last_wifi_toggle_at times
      → (a : Action) → o.0 ≡ ok a
      → Spaced g.last_wifi_toggle_at (if toggled_in a then host.now s ∷ times else times)
  toggle-Spaced (Step.quiet r g' same x y) times h (repairing reason report) e = absurd (x _ _ e)
  toggle-Spaced (Step.quiet r g' same x y) times h _ e = rw same at h
  toggle-Spaced {g} {st} {s} (Step.repairs reason report g' s' cause run f same) times h a e =
      let e' : repairing reason report ≡ a = cc in
      rw (← e') (elim (Bool-cases report.toggled) [
        | inl t ↦
            let (b, valid, on, cool) =
              repair_once-toggled host st (host.now s) g.last_wifi_toggle_at s run t in
            rw t (cooling-Cooled _ _ cool, rw (same, t) at h)
        | inr t ↦ rw t (rw (same, t) at h)
      ])
  toggle-Spaced (Step.captures r g' st' (ok w) same b c d x f k l) times h a e =
      let e' : baseline_captured ≡ a = cc in rw (← e') (rw same at h)
  toggle-Spaced (Step.captures r g' st' (raised w) same b c d x f k l) times h a e = cc

  -- Over any run of the daemon, whatever happens to the host between the ticks, each tick that reports a
  -- Wi-Fi toggle starts at least the cooldown of 120 seconds after the start of the one before it that
  -- does, and after the last one on record at the beginning. The time of a tick is that of its start,
  -- the one that the code records; the commands of the tick, the toggle among them, come later.
  pub run_daemon-Spaced :
      (worlds : List (host.State → host.State)) (g : Guardian) (st : Store) (s : host.State)
      → Spaced g.last_wifi_toggle_at (toggle_times (run_daemon host worlds g st s).0)
  unfolding run_daemon tick
  run_daemon-Spaced [] g st s = tt
  run_daemon-Spaced (world ∷ worlds) g st s =
      let (r, g', st', s') = act host g st (world s) in
      elim (Result-cases r) [
        | inl (a, e) ↦
            rw (e, Spaced, toggle_times, run_daemon)
              (toggle-Spaced (act-Step host g st (world s)) _ (run_daemon-Spaced worlds g' st' s') a
                e)
        | inr (x, e) ↦ rw (e, Spaced, toggle_times, run_daemon) tt
      ]

  abbrev pub Captured : Guardian → Store → host.State → Store → host.State → Type 0
  Captured g st s st' s' =
      (s' ≡ s)
      × ((prove_identity host s).proven ≡ false)
      × ((prove_identity host s).ambiguous ≡ false)
      × (host_is_clean host (prove_identity host s) s ≡ true)
      × (existing_baseline st ≡ ok none)
      × (since_or g.stable_since (host.now s) + g.stability ≤ host.now s)
      × Holds st' (capture_baseline host s)

  Step-Captured :
      {g : Guardian} {st : Store} {s : host.State} {o : Outcome host}
      → Step host g st s o
      → Owns st
      → o.0 ≡ ok baseline_captured
      → let (r, g', st', s') = o in Captured g st s st' s'
  Step-Captured (Step.quiet r g' same a b) own h = absurd (b h)
  Step-Captured (Step.repairs reason report g' s' cause e f same) own h = cc
  Step-Captured {st} {s} (Step.captures r g' st' (ok w) a unproven sure clean fresh stable k l) own
        h =
      let read =
        read_baseline-write_baseline (capture_baseline host s) true st own (ap (λ p. p.0) k) in
      (
        refl,
        unproven,
        sure,
        clean,
        fresh,
        stable,
        subst (λ t. Holds t (capture_baseline host s)) (ap (λ p. p.1) k) read,
      )
  Step-Captured (Step.captures r g' st' (raised w) a b c d e f k l) own h = cc

  -- A tick that reports a captured baseline saw a clean host whose identity is neither proven nor
  -- ambiguous, at least the stability time after stable_since, which is this tick's time where none was
  -- on record; it found no valid baseline, left the host alone, and left a store from which
  -- read_baseline gives what capture_baseline saw, up to the order of the services' states. Whether the
  -- host had been clean since stable_since is not looked at. The process must own what it writes, as
  -- root or where owners are not enforced.
  pub tick-Captured :
      (g : Guardian) (st : Store) (s : host.State) {report : TickReport}
      → Owns st
      → (tick host g st s).0 ≡ ok report
      → report.action ≡ baseline_captured
      → let (r, g', st', s') = tick host g st s in Captured g st s st' s'
  unfolding tick
  tick-Captured g st s {report} own h e =
      let (same, time) = stamp-ok _ _ (act host g st s).0 h in
      Step-Captured (act-Step host g st s) own (same ∙ ap ok e)
