-- ===== src/Guardian/Repair/Truthful.antt =====
-- What a report of `repair_once` says of the host that it leaves behind.
use bootmux.Base.{
  ℕ, ◌≡◌, refl, ap, ◌⊎◌, inl, inr, true, false, not, ◌&&◌, Option, none, some, arith, is_empty,
  Bool-cases,
}
use bootmux.Guardian.Data.{Baseline, IdentityResult}
use bootmux.Guardian.Execute.{execute_plan}
use bootmux.Guardian.Host.{Host}
use bootmux.Guardian.Identity.{prove_identity}
use bootmux.Guardian.Plan.{build_repair_plan}
use bootmux.Guardian.Plan.Toggle.{cooling, build_wifi_toggle_plan}
use bootmux.Guardian.Repair.{
  early, is_repaired, Report, audit_only, fail_closed, repair, baseline_of, toggle_after,
  repair_with, repair_once,
}
use bootmux.Guardian.Store.{
  Store, StoreError, Raised, Result-cases, ok, raised, state_store, json_decode, file_exists,
}
use bootmux.Guardian.Verify.{verify, classify}

-- A toggle plan with a command: the baseline had Wi-Fi on, and the cooldown is over.
pub toggle-commands :
    (baseline : Option Baseline) (now : ℕ) (last : Option ℕ)
    → is_empty (build_wifi_toggle_plan baseline now last).commands ≡ false
    → (b : Baseline) × (baseline ≡ some b) × (b.wifi.power ≡ some true) × (cooling now last ≡ false)
unfolding build_wifi_toggle_plan
toggle-commands none now last h = cc
toggle-commands (some b) now last h = (b, refl, ground arith, ground arith)

module _ (host : Host) where
  abbrev Truthful : IdentityResult → Option Baseline → Report → host.State → Type 0
  Truthful identity baseline report s =
      let v = verify host identity baseline s in
      (report.verification ≡ some v) × (report.verdict ≡ repair (classify v))

  toggle_after-Truthful :
      (identity : IdentityResult) (baseline : Option Baseline) (now : ℕ) (last : Option ℕ)
      (report : Report) (s : host.State)
      → Truthful identity baseline report s
      → let (report', s') = toggle_after host identity baseline now last report s in
        Truthful identity baseline report' s'
  unfolding toggle_after
  toggle_after-Truthful identity baseline now last report s h =
      elim (Bool-cases (is_empty (build_wifi_toggle_plan baseline now last).commands)) [
        | inl none_due ↦ rw (none_due, toggle_after) h
        | inr due ↦ rw (due, toggle_after) (refl, refl)
      ]

  repair_with-Truthful :
      (identity : IdentityResult) (baseline : Option Baseline) (now : ℕ) (last : Option ℕ)
      (s : host.State)
      → let (report, s') = repair_with host identity baseline now last s in
        Truthful identity baseline report s'
  unfolding repair_with
  repair_with-Truthful identity baseline now last s =
      let (execution, s') = execute_plan host (build_repair_plan host identity baseline s) s in
      elim (Bool-cases
        (not (is_repaired (classify (verify host identity baseline s'))) && execution.ok)) [
          | inl again ↦
              rw (again, repair_with)
                (toggle_after-Truthful identity baseline now last _ s' (refl, refl))
          | inr done ↦ rw (done, repair_with) (refl, refl)
        ]

  toggle_after-toggled :
      (identity : IdentityResult) (baseline : Option Baseline) (now : ℕ) (last : Option ℕ)
      (report : Report) (s : host.State)
      → report.toggled ≡ false
      → (toggle_after host identity baseline now last report s).0.toggled ≡ true
      → is_empty (build_wifi_toggle_plan baseline now last).commands ≡ false
  unfolding toggle_after
  toggle_after-toggled identity baseline now last report s old h = ground arith

  repair_with-toggled :
      (identity : IdentityResult) (baseline : Option Baseline) (now : ℕ) (last : Option ℕ)
      (s : host.State)
      → (repair_with host identity baseline now last s).0.toggled ≡ true
      → is_empty (build_wifi_toggle_plan baseline now last).commands ≡ false
  unfolding repair_with
  repair_with-toggled identity baseline now last s h =
      let (execution, s') = execute_plan host (build_repair_plan host identity baseline s) s in
      elim (Bool-cases
        (not (is_repaired (classify (verify host identity baseline s'))) && execution.ok)) [
          | inl again ↦
              toggle_after-toggled identity baseline now last _ s' refl
                (rw (again, repair_with) at h)
          | inr done ↦ cc (rw (done, repair_with) at h)
        ]

  -- What the early returns mean.
  abbrev pub Refused : Store → Report → host.State → host.State → Type 0
  Refused st report s s' =
      (s' ≡ s)
      × (report.plan ≡ none)
      × (report.toggled ≡ false)
      × ((((prove_identity host s).ambiguous ≡ true)
            × (report.verdict ≡ audit_only (prove_identity host s).reason))
          ⊎ ((e : StoreError) × (baseline_of st ≡ raised (state_store e))
              × (report.verdict ≡ fail_closed e)))

  abbrev pub Done : Store → Report → host.State → host.State → Type 0
  Done st report s s' =
      (baseline : Option Baseline) × (baseline_of st ≡ ok baseline)
      × Truthful (prove_identity host s) baseline report s'

  repair_once-cases :
      (st : Store) (now : ℕ) (last : Option ℕ) (s : host.State)
      → (((e : StoreError) × (repair_once host st now last s
              ≡ (ok (early (prove_identity host s) (fail_closed e)), s))
            × (baseline_of st ≡ raised (state_store e)))
          ⊎ (((e : Raised) × (repair_once host st now last s ≡ (raised e, s)))
              ⊎ ((((prove_identity host s).ambiguous ≡ true)
                    × (repair_once host st now last s ≡ (
                      ok (
                          early
                            (prove_identity host s)
                            (audit_only (prove_identity host s).reason)),
                      s,
                    )))
                  ⊎ ((baseline : Option Baseline) × (baseline_of st ≡ ok baseline)
                      × (repair_once host st now last s ≡ (
                        ok (repair_with host (prove_identity host s) baseline now last s).0,
                        (repair_with host (prove_identity host s) baseline now last s).1,
                      ))))))
  unfolding repair_once
  repair_once-cases st now last s = elim (Bool-cases (prove_identity host s).ambiguous) [
    | inl unsure ↦ inr (inr (inl (unsure, rw (unsure, repair_once))))
    | inr sure ↦ elim (Result-cases (baseline_of st)) [
      | inl (baseline, e) ↦ inr (inr (inr (baseline, e, ground arith)))
      | inr (state_store e, h) ↦ inl (e, ground arith, h)
      | inr (json_decode, h) ↦ inr (inl (json_decode, ground arith))
      | inr (file_exists, h) ↦ inr (inl (file_exists, ground arith))
    ]
  ]

  -- A report of repair_once is one of two. Either the identity is ambiguous or the state store is
  -- invalid, as the report says, and then the host is as it was, nothing was planned and Wi-Fi was
  -- not toggled. Or the store is valid, and the verification and the classification that the report
  -- gives are those of the host as it is left, against the baseline in the store.
  pub repair_once-truthful :
      (st : Store) (now : ℕ) (last : Option ℕ) (s : host.State) {report : Report}
      → (repair_once host st now last s).0 ≡ ok report
      → let s' = (repair_once host st now last s).1 in Refused st report s s' ⊎ Done st report s s'
  repair_once-truthful st now last s {report} h = elim (repair_once-cases st now last s) [
    | inl (e, run, bad) ↦
        let same : early (prove_identity host s) (fail_closed e) ≡ report = cc (rw run at h) in
        rw run (inl (refl, rw (← same) refl, rw (← same) refl, inr (e, bad, rw (← same) refl)))
    | inr (inl (e, run)) ↦ cc (rw run at h)
    | inr (inr (inl (unsure, run))) ↦
        let same : early (prove_identity host s) (audit_only (prove_identity host s).reason)
            ≡ report =
          cc (rw run at h) in
        rw run (inl (refl, rw (← same) refl, rw (← same) refl, inl (unsure, rw (← same) refl)))
    | inr (inr (inr (baseline, found, run))) ↦
        let same : (repair_with host (prove_identity host s) baseline now last s).0 ≡ report =
          cc (rw run at h) in
        rw run (
          inr (
            baseline,
            found,
            rw (← same) (repair_with-Truthful (prove_identity host s) baseline now last s),
          ))
  ]

  -- repair_once toggles Wi-Fi only where a valid baseline recorded it as powered on and the cooldown
  -- since the last toggle is over.
  pub repair_once-toggled :
      (st : Store) (now : ℕ) (last : Option ℕ) (s : host.State) {report : Report}
      → (repair_once host st now last s).0 ≡ ok report
      → report.toggled ≡ true
      → (b : Baseline) × (baseline_of st ≡ ok (some b))
        × (b.wifi.power ≡ some true)
        × (cooling now last ≡ false)
  repair_once-toggled st now last s {report} h t = elim (repair_once-cases st now last s) [
    | inl (e, run, bad) ↦
        let same : early (prove_identity host s) (fail_closed e) ≡ report = cc (rw run at h) in
        cc (rw (← same) at t)
    | inr (inl (e, run)) ↦ cc (rw run at h)
    | inr (inr (inl (unsure, run))) ↦
        let same : early (prove_identity host s) (audit_only (prove_identity host s).reason)
            ≡ report =
          cc (rw run at h) in
        cc (rw (← same) at t)
    | inr (inr (inr (baseline, found, run))) ↦
        let same : (repair_with host (prove_identity host s) baseline now last s).0 ≡ report =
          cc (rw run at h) in
        let (b, e, on, cool) =
          toggle-commands baseline now last
            (repair_with-toggled (prove_identity host s) baseline now last s (rw (← same) at t)) in
        (b, rw (← e) found, on, cool)
  ]

  -- What repair_once returns: a report, or what is raised with the host as it was.
  pub repair_outcome :
      (st : Store) (now : ℕ) (last : Option ℕ) (s : host.State)
      → ((report : Report) × ((repair_once host st now last s).0 ≡ ok report))
        ⊎ ((e : Raised) × ((repair_once host st now last s).0 ≡ raised e)
            × ((repair_once host st now last s).1 ≡ s))
  repair_outcome st now last s = elim (repair_once-cases st now last s) [
    | inl (e, run, bad) ↦ inl (_, ap (λ p. p.0) run)
    | inr (inl (e, run)) ↦ inr (e, ap (λ p. p.0) run, ap (λ p. p.1) run)
    | inr (inr (inl (unsure, run))) ↦ inl (_, ap (λ p. p.0) run)
    | inr (inr (inr (baseline, found, run))) ↦ inl (_, ap (λ p. p.0) run)
  ]
