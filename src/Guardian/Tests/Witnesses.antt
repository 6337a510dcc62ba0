-- ===== src/Guardian/Tests/Witnesses.antt =====
-- The theorems on the guardian at concrete hosts, stores and daemons.
use bootmux.Base.{◌≡◌, ◌↔◌, refl, ◌⊎◌, true, false, not, ℕ, none, some, [], ◌∷◌, arith, All, filter}
use bootmux.Guardian.Data.{IdentityResult, Iface, RepairPlan}
use bootmux.Guardian.Daemon.{Reason, repairing, new_guardian, tick, run_daemon}
use bootmux.Guardian.Daemon.Safety.{
  Spaced, toggle_times, Captured, tick-changes_host, run_daemon-Spaced, tick-Captured,
}
use bootmux.Guardian.Daemon.Steps.{Cause}
use bootmux.Guardian.Daemon.StoreFaults.{tick-keeps_baseline, tick-raises_store_error}
use bootmux.Guardian.Execute.{execute_plan}
use bootmux.Guardian.Execute.Total.{
  run_all, runs, executed_of, failures_of, all_succeeded, told, execute_plan-total,
}
use bootmux.Guardian.FakeHost.{fake_host, advance}
use bootmux.Guardian.FakeHost.Routes.{execute_plan-removes_routes}
use bootmux.Guardian.Identity.{prove_identity, candidates, via_peer}
use bootmux.Guardian.Identity.Policy.{has_hardware, prove_identity-proven_iff}
use bootmux.Guardian.Plan.{build_repair_plan}
use bootmux.Guardian.Plan.Permitted.{IsRemoval, IsRestore, build_repair_plan-permitted}
use bootmux.Guardian.Plan.Routes.{plan_r1_routes}
use bootmux.Guardian.Plan.Service.{plan_r2_service}
use bootmux.Guardian.Plan.Order.{plan_r5_order}
use bootmux.Guardian.Repair.{Report, audit_only, early, repair_once}
use bootmux.Guardian.Repair.Truthful.{Refused, Done, repair_once-truthful}
use bootmux.Guardian.Store.{
  ok, raised, file_mode, state_store, as_document, write_baseline, state_baseline,
}
use bootmux.Guardian.Store.RoundTrip.{Holds, read_baseline-write_baseline}
use bootmux.Guardian.Tests.{
  attached_host, clean_host, self_test_host, baseline, empty_store, full_store, loose_store,
  run_repair, turn, silent, silent_host, settled, settled_host, report_of,
}
use bootmux.Base.{if◌then◌else◌, ◌&&◌}
use bootmux.Base.Dict.{get, keys}
use bootmux.Guardian.Store.{Store, written_file}
use bootmux.Guardian.Uninstall.{uninstall_guardian, is_owned}
use bootmux.Guardian.Uninstall.Scope.{or_else, uninstall_guardian_lem}
use bootmux.Guardian.Verify.Agreement.{repaired-no_plan}

prove_identity-proven_iff_example : ((prove_identity fake_host attached_host).proven ≡ true) ↔ (
    (i : Iface) × (candidates attached_host.ifaces ≡ i ∷ [])
    × (has_hardware attached_host.usb ≡ true))
prove_identity-proven_iff_example = prove_identity-proven_iff fake_host attached_host

abbrev attached_identity : IdentityResult
attached_identity = prove_identity fake_host attached_host

build_repair_plan-permitted_example :
    All
      (IsRemoval attached_identity attached_host.routes attached_host.services)
      (build_repair_plan fake_host attached_identity none attached_host).commands
    × All
        (λ c.
          IsRemoval attached_identity attached_host.routes attached_host.services c
          ⊎ IsRestore attached_identity attached_host.routes attached_host.services baseline c)
        (build_repair_plan fake_host attached_identity (some baseline) attached_host).commands
build_repair_plan-permitted_example =
    build_repair_plan-permitted fake_host attached_identity attached_host baseline

abbrev attached_plan : RepairPlan
attached_plan = build_repair_plan fake_host attached_identity (some baseline) attached_host

execute_plan-total_example :
    let (r, s') = execute_plan fake_host attached_plan attached_host in
    (s' ≡ run_all fake_host attached_plan.commands attached_host)
    × (r.executed ≡ executed_of (runs fake_host attached_plan.commands attached_host))
    × (told r.failures ≡ failures_of (runs fake_host attached_plan.commands attached_host))
    × (r.ok ≡ all_succeeded (runs fake_host attached_plan.commands attached_host))
execute_plan-total_example = execute_plan-total fake_host attached_plan attached_host

abbrev self_test_identity : IdentityResult
self_test_identity = prove_identity fake_host self_test_host

execute_plan-removes_routes_example :
    (execute_plan fake_host
      (plan_r1_routes fake_host self_test_identity self_test_host)
      self_test_host).1.routes
    ≡ filter (λ r. not (via_peer r)) self_test_host.routes
unfolding run_repair
execute_plan-removes_routes_example =
    execute_plan-removes_routes self_test_identity self_test_host refl refl

abbrev clean_identity : IdentityResult
clean_identity = prove_identity fake_host clean_host

repaired-no_plan_example :
    ((plan_r1_routes fake_host clean_identity clean_host).commands ≡ [])
    × ((plan_r2_service fake_host clean_identity clean_host).commands ≡ [])
    × ((plan_r5_order fake_host clean_identity (some baseline) clean_host).commands ≡ [])
unfolding run_repair
repaired-no_plan_example = repaired-no_plan fake_host clean_identity baseline clean_host refl

abbrev attached_report : Report
attached_report =
    report_of (early attached_identity (audit_only "")) (run_repair full_store attached_host).0

repair_once-truthful_example :
    let s' = (repair_once fake_host full_store 0 none attached_host).1 in
    Refused fake_host full_store attached_report attached_host s'
    ⊎ Done fake_host full_store attached_report attached_host s'
unfolding run_repair
repair_once-truthful_example = repair_once-truthful fake_host full_store 0 none attached_host refl

tick-changes_host_example :
    let (r, g', st', s') = tick fake_host silent full_store silent_host in
    (s' ≡ silent_host)
    ⊎ ((reason : Reason) × (report : Report) × (r
          ≡ ok (record {
            time = silent_host.clock;
            mode = silent.mode;
            action = repairing reason report;
          }))
        × Cause fake_host silent silent_host reason)
tick-changes_host_example = tick-changes_host fake_host silent full_store silent_host

run_daemon-Spaced_example : Spaced none (
    toggle_times
      (run_daemon fake_host
        (advance 2000 ∷ advance 2000 ∷ advance 130000 ∷ [])
        new_guardian
        full_store
        attached_host).0)
run_daemon-Spaced_example =
    run_daemon-Spaced fake_host (advance 2000 ∷ advance 2000 ∷ advance 130000 ∷ []) new_guardian
      full_store attached_host

tick-Captured_example :
    let (r, g', st', s') = tick fake_host settled empty_store settled_host in
    Captured fake_host settled empty_store settled_host st' s'
unfolding turn
tick-Captured_example = tick-Captured fake_host settled empty_store settled_host refl refl refl

tick-keeps_baseline_example : (tick fake_host settled full_store settled_host).2 ≡ full_store
unfolding turn
tick-keeps_baseline_example = tick-keeps_baseline fake_host settled full_store settled_host refl

tick-raises_store_error_example :
    ((tick fake_host settled loose_store settled_host).0
      ≡ raised (state_store (file_mode 0o644 state_baseline)))
    × ((tick fake_host settled loose_store settled_host).2 ≡ loose_store)
unfolding turn
tick-raises_store_error_example =
    tick-raises_store_error fake_host settled loose_store settled_host
      (file_mode 0o644 state_baseline)
      (record { valid = refl; unproven = refl; sure = refl; fresh = refl; present = refl }) refl
      (omega arith) refl

read_baseline-write_baseline_example : Holds (write_baseline baseline true empty_store).1 baseline
unfolding turn
read_baseline-write_baseline_example =
    read_baseline-write_baseline baseline true empty_store refl refl

abbrev settled_code : ℕ
settled_code = 0

abbrev used_store : Store
used_store = record full_store {
  files = ("notes.txt", written_file 0 (as_document baseline)) ∷ full_store.files;
}

uninstall_guardian_lem_example :
    let (out, st', evidence') = uninstall_guardian false used_store [] in
    let owned = filter is_owned (keys used_store.files) in
    (get state_baseline st'.files
      ≡ (if is_owned state_baseline then none else get state_baseline used_store.files))
    × (get state_baseline evidence' ≡ (
        if not false && is_owned state_baseline
        then or_else (get state_baseline used_store.files) (get state_baseline [])
        else get state_baseline []))
    × (out.removed ≡ (if false then owned else []))
    × (out.preserved_evidence ≡ (if not false then owned else []))
uninstall_guardian_lem_example = uninstall_guardian_lem false used_store [] state_baseline refl

uninstall_keeps_notes :
    let (out, st', evidence') = uninstall_guardian false used_store [] in
    (keys st'.files ≡ "notes.txt" ∷ []) × (keys evidence' ≡ state_baseline ∷ [])
unfolding uninstall_guardian is_owned
uninstall_keeps_notes = (refl, refl)
