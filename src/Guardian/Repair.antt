-- ===== src/Guardian/Repair.antt =====
-- scripts/macos/bootmux-network-guardian.py, `repair_once`. The report is a record whose optional
-- fields are the keys that some branches leave out.
pub mod Truthful
use bootmux.Base.{
  ℕ, Bool, true, false, not, ◌&&◌, ◌||◌, Option, none, some, String, is_empty, if◌then◌else◌,
}
use bootmux.Guardian.Data.{RepairPlan, IdentityResult, Baseline}
use bootmux.Guardian.Execute.{ExecutionResult, execute_plan}
use bootmux.Guardian.Host.{Host}
use bootmux.Guardian.Identity.{prove_identity}
use bootmux.Guardian.Plan.{build_repair_plan}
use bootmux.Guardian.Plan.Toggle.{build_wifi_toggle_plan}
use bootmux.Guardian.Store.{
  Store, StoreError, state_store, json_decode, file_exists, Result, ok, raised, ◌>>◌, is_dir,
  validate_dir, read_baseline,
}
use bootmux.Guardian.Verify.{Verification, Classification, repaired, incomplete, verify, classify}

-- report["action"] and report["classification"], with what goes with each.
pub data Verdict : Type 0 where
  audit_only : String → Verdict
  fail_closed : StoreError → Verdict
  repair : Classification → Verdict

pub record Report : Type 0 where
  pub identity : IdentityResult
  pub verdict : Verdict
  pub has_baseline : Bool
  pub plan : Option RepairPlan
  pub execution : Option ExecutionResult
  pub wifi_toggle : Option RepairPlan
  pub wifi_toggle_execution : Option ExecutionResult
  pub toggled : Bool
  pub verification : Option Verification

-- A report of the early returns.
abbrev pub early : IdentityResult → Verdict → Report
early identity verdict = record {
  identity = identity;
  verdict = verdict;
  has_baseline = false;
  plan = none;
  execution = none;
  wifi_toggle = none;
  wifi_toggle_execution = none;
  toggled = false;
  verification = none;
}

-- The baseline that `repair_once` reads, where the state directory is there.
unfoldable pub baseline_of : Store → Result (Option Baseline)
baseline_of st =
    if is_dir st.root_kind || st.root_link then validate_dir st >> read_baseline st else ok none

abbrev pub is_repaired : Classification → Bool
is_repaired repaired = true
is_repaired (incomplete _) = false

module _ (host : Host) where
  -- The toggle, where the repair has not sufficed.
  unfoldable pub toggle_after :
      IdentityResult → Option Baseline → ℕ → Option ℕ → Report → host.State → Report × host.State
  toggle_after identity baseline now last report s =
      let plan = build_wifi_toggle_plan baseline now last in
      if is_empty plan.commands
      then (report, s)
      else let (execution, s') = execute_plan host plan s in
        let v = verify host identity baseline s' in
        (
          record report {
            verdict = repair (classify v);
            wifi_toggle = some plan;
            wifi_toggle_execution = some execution;
            toggled = true;
            verification = some v;
          },
          s',
        )

  -- The part behind the early returns.
  unfoldable pub repair_with :
      IdentityResult → Option Baseline → ℕ → Option ℕ → host.State → Report × host.State
  repair_with identity baseline now last s =
      let plan = build_repair_plan host identity baseline s in
      let (execution, s') = execute_plan host plan s in
      let v = verify host identity baseline s' in
      let report : Report = record {
        identity = identity;
        verdict = repair (classify v);
        has_baseline = elim baseline [ none ↦ false | some _ ↦ true ];
        plan = some plan;
        execution = some execution;
        wifi_toggle = none;
        wifi_toggle_execution = none;
        toggled = false;
        verification = some v;
      } in
      if not (is_repaired (classify v)) && execution.ok
      then toggle_after identity baseline now last report s'
      else (report, s')

  -- `repair_once`: the report, or what `read_baseline` raises besides a StateStoreError; and the
  -- host as it is left.
  unfoldable pub repair_once : Store → ℕ → Option ℕ → host.State → Result Report × host.State
  repair_once st now last s =
      let identity = prove_identity host s in
      if identity.ambiguous
      then (ok (early identity (audit_only identity.reason)), s)
      else elim (baseline_of st) [
        | raised (state_store e) ↦ (ok (early identity (fail_closed e)), s)
        | raised json_decode ↦ (raised json_decode, s)
        | raised file_exists ↦ (raised file_exists, s)
        | ok baseline ↦
            let (report, s') = repair_with identity baseline now last s in (ok report, s')
      ]
