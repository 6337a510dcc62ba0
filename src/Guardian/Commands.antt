-- ===== src/Guardian/Commands.antt =====
-- scripts/macos/bootmux-network-guardian.py: the commands behind the command line, each with what it
-- prints and its exit code.
pub mod Codes
use bootmux.Base.{ℕ, Bool, true, false, Option, none, some, if◌then◌else◌}
use bootmux.Guardian.Baseline.{host_is_clean, capture_baseline, redact_baseline}
use bootmux.Guardian.Data.{IdentityResult, Baseline}
use bootmux.Guardian.Host.{Host}
use bootmux.Guardian.Identity.{prove_identity}
use bootmux.Guardian.Repair.{
  Report, Verdict, repair, audit_only, fail_closed, is_repaired, repair_once,
}
use bootmux.Guardian.Store.{
  Store, StoreError, Raised, state_store, json_decode, file_exists, Result, ok, raised,
  read_baseline, write_baseline,
}

-- out["state"] of `--status`
pub data HostState : Type 0 where
  closed clean bootmux_present : HostState

-- The JSON object that a command prints.
pub data Output : Type 0 where
  audit_invalid : StoreError → Output
  audit : IdentityResult → (host_clean : Bool) → Option Baseline → Output
  status : HostState → IdentityResult → Option Baseline → Option StoreError → Output
  capture_refused : IdentityResult → Output
  captured : Option Baseline → Output
  repair_report : Report → Output

-- report.get("classification") == "REPAIRED"
abbrev pub is_success : Verdict → Bool
is_success (audit_only reason) = false
is_success (fail_closed e) = false
is_success (repair c) = is_repaired c

module _ (host : Host) where
  unfoldable pub cmd_audit : Store → host.State → Result (Output × ℕ)
  cmd_audit st s =
      let identity = prove_identity host s in
      elim (read_baseline st) [
        | raised (state_store e) ↦ ok (audit_invalid e, 1)
        | raised json_decode ↦ raised json_decode
        | raised file_exists ↦ raised file_exists
        | ok baseline ↦
            ok (audit identity (host_is_clean host identity s) (redact_baseline baseline), 0)
      ]

  unfoldable pub cmd_status : Store → host.State → Result (Output × ℕ)
  cmd_status st s =
      let identity = prove_identity host s in
      elim (read_baseline st) [
        | raised (state_store e) ↦ ok (status closed identity (redact_baseline none) (some e), 1)
        | raised json_decode ↦ raised json_decode
        | raised file_exists ↦ raised file_exists
        | ok baseline ↦ ok (
          status (if host_is_clean host identity s then clean else bootmux_present) identity
              (redact_baseline baseline) none,
          0,
        )
      ]

  unfoldable pub cmd_capture_baseline : Store → host.State → Result (Output × ℕ) × Store
  cmd_capture_baseline st s =
      let identity = prove_identity host s in
      let baseline = capture_baseline host s in
      let (written, st') = write_baseline baseline true st in
      if host_is_clean host identity s
      then elim written [
        | raised e ↦ (raised e, st')
        | ok _ ↦ (ok (captured (redact_baseline (some baseline)), 0), st')
      ]
      else (ok (capture_refused identity, 3), st)

  unfoldable pub cmd_repair_now : Store → host.State → Result (Output × ℕ) × host.State
  cmd_repair_now st s =
      let (result, s') = repair_once host st (host.now s) none s in
      elim result [
        | raised e ↦ (raised e, s')
        | ok report ↦ (ok (repair_report report, if is_success report.verdict then 0 else 4), s')
      ]
