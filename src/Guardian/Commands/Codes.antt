-- ===== src/Guardian/Commands/Codes.antt =====
-- What the exit codes of the commands say.
use bootmux.Base.{
  ◌≡◌, ◌⊎◌, refl, ap, ◌∙◌, inl, inr, ℕ, true, false, Option, none, some, All, arith, Bool-cases,
  if◌then◌else◌,
}
use bootmux.Guardian.Baseline.{host_is_clean, capture_baseline, redact_baseline}
use bootmux.Guardian.Commands.{
  Output, capture_refused, captured, repair_report, is_success, cmd_capture_baseline,
  cmd_repair_now,
}
use bootmux.Guardian.Data.{Baseline}
use bootmux.Guardian.Host.{Host}
use bootmux.Guardian.Identity.{prove_identity}
use bootmux.Guardian.Repair.{Report, repair, repair_once, baseline_of}
use bootmux.Guardian.Repair.Truthful.{repair_once-truthful}
use bootmux.Guardian.Store.{Store, Result, ok, Result-cases, write_baseline}
use bootmux.Guardian.Store.RoundTrip.{Owns, Holds, read_baseline-write_baseline}
use bootmux.Guardian.Verify.{Classification, repaired, incomplete, verify, verify_entries}
use bootmux.Guardian.Verify.Agreement.{classify-repaired_iff}

abbrev printed : Output → ℕ → Result (Output × ℕ)
printed out code = ok (out, code)

success :
    (report : Report) {out : Output}
    → printed (repair_report report) (if is_success report.verdict then 0 else 4) ≡ printed out 0
    → is_success report.verdict ≡ true
success report h = ground arith

repaired_of : (c : Classification) → is_success (repair c) ≡ true → c ≡ repaired
repaired_of repaired h = refl
repaired_of (incomplete failed) h = cc

module _ (host : Host) where
  -- `--capture-baseline` with exit code 0 saw a clean host, and the store that it leaves gives back
  -- what capture_baseline saw, up to the order of the services' states; with another code it leaves the
  -- store as it was. The process must own what it writes.
  pub cmd_capture_baseline_codes :
      (st : Store) (s : host.State) {out : Output} {code : ℕ}
      → Owns st
      → (cmd_capture_baseline host st s).0 ≡ ok (out, code)
      → let st' = (cmd_capture_baseline host st s).1 in
        ((code ≡ 0)
          × (host_is_clean host (prove_identity host s) s ≡ true)
          × Holds st' (capture_baseline host s))
        ⊎ ((code ≡ 3) × (host_is_clean host (prove_identity host s) s ≡ false) × (st' ≡ st))
  unfolding cmd_capture_baseline
  cmd_capture_baseline_codes st s {out} {code} own h =
      elim (Bool-cases (host_is_clean host (prove_identity host s) s)) [
        | inr dirty ↦
            let e : printed (capture_refused (prove_identity host s)) 3 ≡ printed out code =
              rw (dirty, cmd_capture_baseline) at h in
            rw (dirty, cmd_capture_baseline) (inr (cc, refl, refl))
        | inl fine ↦ elim (Result-cases (write_baseline (capture_baseline host s) true st).0) [
          | inr (x, bad) ↦ cc (rw (fine, bad, cmd_capture_baseline) at h)
          | inl (u, written) ↦
              let e : printed (captured (redact_baseline (some (capture_baseline host s)))) 0
                  ≡ printed out code =
                rw (fine, written, cmd_capture_baseline) at h in
              rw (fine, written, cmd_capture_baseline)
                (inl (
                  cc,
                  refl,
                  read_baseline-write_baseline (capture_baseline host s) true st own
                      (written ∙ ap ok refl),
                ))
        ]
      ]

  -- `--repair-now` with exit code 0 found a valid store and leaves a host at which every check of the
  -- verification against the store's baseline holds.
  pub cmd_repair_now-zero :
      (st : Store) (s : host.State) {out : Output}
      → (cmd_repair_now host st s).0 ≡ ok (out, 0)
      → (baseline : Option Baseline) × (baseline_of st ≡ ok baseline)
        × All
            (λ e. e.1 ≡ true)
            (verify_entries
              (verify host (prove_identity host s) baseline (cmd_repair_now host st s).1))
  unfolding cmd_repair_now
  cmd_repair_now-zero st s {out} h =
      elim (Result-cases (repair_once host st (host.now s) none s).0) [
        | inr (x, bad) ↦ cc (rw (bad, cmd_repair_now) at h)
        | inl (report, e) ↦
            let good : is_success report.verdict ≡ true =
              success report (rw (e, cmd_repair_now) at h) in
            elim (repair_once-truthful host st (host.now s) none s e) [
              | inl (_, _, _, inl (_, v)) ↦ cc (rw v at good)
              | inl (_, _, _, inr (x, _, v)) ↦ cc (rw v at good)
              | inr (baseline, found, (_, v)) ↦
                  rw (e, cmd_repair_now)
                    (baseline, found, (classify-repaired_iff _).0 (repaired_of _ (rw v at good)))
            ]
      ]
