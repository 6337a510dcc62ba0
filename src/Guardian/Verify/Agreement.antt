-- ===== src/Guardian/Verify/Agreement.antt =====
-- `classify` against the keys that it reads, and the verification (R7) against the planners.
use bootmux.Base.{
  ◌≡◌, refl, ◌↔◌, inl, inr, Bool, true, false, not, Option, some, List, [], ◌∷◌, String, map, arith,
  all, filter, is_empty, All, In, All-In, is_empty-map, filter-nil, ◌∙◌, all-All, All-all,
  filter-not-ne-nil, In-filter, All-map, Bool-cases,
}
use bootmux.Guardian.Data.{IdentityResult, Baseline, Service, empty_plan}
use bootmux.Guardian.Host.{Host}
use bootmux.Guardian.Plan.Routes.{owned, plan_r1_routes, plan_r1_routes-owned}
use bootmux.Guardian.Plan.Service.{plan_r2_service}
use bootmux.Guardian.Plan.Order.{
  needs_switch, r5_loop-commands, plan_order, plan_r5_order, without, ordered_names,
}
use bootmux.Guardian.Verify.{
  Verification, verify_entries, repaired, incomplete, passed, classify_entries, classify, verify,
  service_disabled, order_matches, keeps_state,
}

entries-repaired_iff :
    (entries : List (String × Bool))
    → (classify_entries entries ≡ repaired) ↔ All (λ e. e.1 ≡ true) entries
unfolding classify_entries
entries-repaired_iff entries = elim (Bool-cases (all passed entries)) [
  | inl every ↦ (λ _. all-All passed entries every, λ _. rw every)
  | inr some_fail ↦ (λ h. cc, λ h. cc (All-all passed entries h))
]

-- The verdict is REPAIRED exactly when all ten keys hold.
pub classify-repaired_iff :
    (v : Verification) → (classify v ≡ repaired) ↔ All (λ e. e.1 ≡ true) (verify_entries v)
unfolding classify
classify-repaired_iff v = entries-repaired_iff (verify_entries v)

entries-incomplete :
    (entries : List (String × Bool)) {failed : List String}
    → classify_entries entries ≡ incomplete failed
    → (is_empty failed ≡ false) × All (λ key. In (key, false) entries) failed
unfolding classify_entries
entries-incomplete entries {failed} h = elim (Bool-cases (all passed entries)) [
  | inl every ↦ cc
  | inr some_fail ↦
      let bad = filter (λ e. not (passed e)) entries in
      let e : map (λ e. e.0) bad ≡ failed = cc (rw some_fail at h) in
      rw (← e) (
        is_empty-map _ bad ∙ filter-not-ne-nil passed entries some_fail,
        All-map (λ e. e.0) (λ key. In (key, false) entries) bad
            (All-In _ bad λ (key, b) m.
              let (there, fails) = In-filter (λ e. not (passed e)) (key, b) entries m in
              let off : b ≡ false = ground arith in rw (← off) there),
      )
]

-- A verdict INCOMPLETE names at least one key, and only keys that failed.
pub classify-incomplete :
    (v : Verification) {failed : List String}
    → classify v ≡ incomplete failed
    → (is_empty failed ≡ false) × All (λ key. In (key, false) (verify_entries v)) failed
unfolding classify
classify-incomplete v h = entries-incomplete (verify_entries v) h

r2-disabled :
    (host : Host) (identity : IdentityResult) (s : host.State)
    → service_disabled identity.service (host.services s) ≡ true
    → (plan_r2_service host identity s).commands ≡ []
unfolding service_disabled plan_r2_service
r2-disabled host identity s h = ground arith

switch_none :
    (service : Option String) (services : List Service) (wanted : List (String × Bool))
    → all (keeps_state service services) wanted ≡ true
    → filter (needs_switch service services) wanted ≡ []
unfolding needs_switch
switch_none service services [] h = refl
switch_none service services ((name, want) ∷ wanted) h =
    ground (arith, switch_none service services wanted)

order_none :
    (identity : IdentityResult) (services : List Service) (b : Baseline)
    → order_matches identity.service services b.network ≡ true
    → (plan_order
        (without identity.service b.network.network_service_order)
        (without identity.service (ordered_names services))
        empty_plan).commands
      ≡ []
unfolding order_matches plan_order
order_none identity services b h = ground arith

module _ (host : Host) (identity : IdentityResult) (b : Baseline) (s : host.State) where
  -- Where the verification of the host passes, the planners R1, R2 and R5 find nothing to do: a
  -- repaired host gets no deletion, no service switched and no new order from a second repair.
  pub repaired-no_plan :
      classify (verify host identity (some b) s) ≡ repaired
      → ((plan_r1_routes host identity s).commands ≡ [])
        × ((plan_r2_service host identity s).commands ≡ [])
        × ((plan_r5_order host identity (some b) s).commands ≡ [])
  unfolding verify plan_r5_order
  repaired-no_plan h =
      let (d, (r, (service, (p, (ss, (m, (dr, (dns, (order, (unrelated, _)))))))))) =
        (classify-repaired_iff (verify host identity (some b) s)).0 h in
      (
        rw (plan_r1_routes-owned, filter-nil (owned identity.interface) (host.routes s) r) refl,
        r2-disabled host identity s service,
        rw
            (
              r5_loop-commands,
              switch_none identity.service (host.services s) _ unrelated,
              order_none identity (host.services s) b order,
            )
            refl,
      )
