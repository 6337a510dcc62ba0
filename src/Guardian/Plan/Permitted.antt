-- ===== src/Guardian/Plan/Permitted.antt =====
-- What a repair plan may contain, command by command, apart from the way the planners find it.
use bootmux.Base.{
  is_empty, same_texts, ◌&&◌, ◌<>◌, ◌≡◌, refl, ◌⊎◌, inl, inr, Bool, true, false, not, Option, none,
  some, List, String, arith, filter, is_text, truthy, same_set, All, In, All-In, In-filter, All-map,
  All-append, is_text-eq, truthy-eq,
}
use bootmux.Guardian.Data.{
  add, note, empty_plan, Command, RepairPlan, IdentityResult, Baseline, Route, Service,
}
use bootmux.Guardian.Emits.{
  Emits, Emits-mono, Emits-empty, Emits-note, Emits-add, Emits-if, Emits-option,
}
use bootmux.Guardian.Host.{Host}
use bootmux.Guardian.Plan.{build_repair_plan}
use bootmux.Guardian.Plan.Routes.{owned, delete_route, plan_r1_routes, plan_r1_routes-owned}
use bootmux.Guardian.Plan.Service.{disable_command, enabled_of, plan_r2_service}
use bootmux.Guardian.Plan.Ipv4.{
  renew_dhcp, restore_manual, all_given, all_given-eq, same_ipv4, plan_r3_ipv4,
}
use bootmux.Guardian.Plan.Dns.{dns_command, plan_r4_dns}
use bootmux.Guardian.Plan.Order.{
  order_command, enable_command, without, ordered_names, current_enabled, needs_switch,
  needs_switch-present, switch_to, r5_loop-commands, plan_order, plan_r5_order,
}

module _ (identity : IdentityResult) (routes : List Route) (services : List Service) where
  -- Without a baseline: deletions of owned routes of the table, and the proven service turned off.
  pub data IsRemoval (c : Command) : Type 0 where
    delete :
        (r : Route)
        → In r routes
        → owned identity.interface r ≡ true
        → c ≡ delete_route r
        → IsRemoval c
    disable :
        (name : String) → identity.service ≡ some name → c ≡ disable_command name → IsRemoval c

  -- With a baseline: besides, what the baseline recorded of its Wi-Fi device and service is put
  -- back, a complete order of the present services, and the state of a present service that is not
  -- BOOTMUX's.
  pub data IsRestore (b : Baseline) (c : Command) : Type 0 where
    renew :
        (device : String)
        → b.wifi.hardware_device ≡ some device
        → b.wifi.ipv4_mode ≡ some "dhcp"
        → c ≡ renew_dhcp device
        → IsRestore b c
    manual :
        (service addr mask router : String)
        → b.wifi.ipv4_mode ≡ some "manual"
        → b.wifi.service_name ≡ some service
        → b.wifi.ipv4_address ≡ some addr
        → b.wifi.subnet_mask ≡ some mask
        → b.wifi.router ≡ some router
        → c ≡ restore_manual service addr mask router
        → IsRestore b c
    servers :
        (service : String)
        → b.wifi.service_name ≡ some service
        → c ≡ dns_command "-setdnsservers" "DNS" service b.wifi.dns_servers
        → IsRestore b c
    domains :
        (service : String)
        → b.wifi.service_name ≡ some service
        → c ≡ dns_command "-setsearchdomains" "search domains" service b.wifi.search_domains
        → IsRestore b c
    order :
        same_set
            (without identity.service b.network.network_service_order)
            (without identity.service (ordered_names services))
          ≡ true
        → c ≡ order_command (without identity.service b.network.network_service_order)
        → IsRestore b c
    switch :
        (name : String) (want : Bool)
        → In (name, want) b.network.service_enabled_states
        → is_text identity.service name ≡ false
        → current_enabled services name ≡ some (not want)
        → c ≡ enable_command name want
        → IsRestore b c

ruleset emits = (Emits-empty, Emits-note, Emits-add)

module _ (host : Host) (identity : IdentityResult) (s : host.State) where
  abbrev Removal : Command → Type 0
  Removal = IsRemoval identity (host.routes s) (host.services s)

  r1-Removal : Emits Removal (plan_r1_routes host identity s)
  r1-Removal = record {
    each = rw plan_r1_routes-owned (
        All-map delete_route Removal (filter (owned identity.interface) (host.routes s)) (
          All-In _ _ λ r m.
            let (there, mine) = In-filter (owned identity.interface) r (host.routes s) m in
            IsRemoval.delete r there mine refl));
  }

  r2-Removal : Emits Removal (plan_r2_service host identity s)
  unfolding plan_r2_service
  r2-Removal =
      Emits-option Removal (truthy identity.service) (Emits-note _ _ (Emits-empty _)) λ name e.
        let p : Removal (disable_command name) = IsRemoval.disable name (truthy-eq _ e) refl in
        Emits-if Removal (not (enabled_of name (host.services s))) (λ _. search emits)
          (λ _. search emits)

  build-each :
      (P : Command → Type 0) (baseline : Option Baseline)
      → Emits P (plan_r1_routes host identity s)
      → Emits P (plan_r2_service host identity s)
      → Emits P (plan_r3_ipv4 host baseline s)
      → Emits P (plan_r4_dns host baseline s)
      → Emits P (plan_r5_order host identity baseline s)
      → All P (build_repair_plan host identity baseline s).commands
  unfolding build_repair_plan
  build-each P baseline h1 h2 h3 h4 h5 =
      All-append P _ _
        (All-append P _ _ (All-append P _ _ (All-append P _ _ h1.each h2.each) h3.each) h4.each)
        h5.each

  module _ (b : Baseline) where
    abbrev Restore : Command → Type 0
    Restore = IsRestore identity (host.routes s) (host.services s) b

    r3-Restore : Emits Restore (plan_r3_ipv4 host (some b) s)
    unfolding plan_r3_ipv4
    r3-Restore =
        Emits-option Restore (truthy b.wifi.hardware_device) (Emits-note _ _ (Emits-empty _))
          λ device e.
            let current = host.wifi_ipv4 s device in
            Emits-if Restore (is_text b.wifi.ipv4_mode "dhcp")
              (λ dhcp.
                Emits-if Restore (not (is_text current.mode "dhcp"))
                  (λ _.
                    Emits-add _ _ _
                      (IsRestore.renew device (truthy-eq _ e) (is_text-eq _ _ dhcp) refl)
                      (Emits-empty _))
                  (λ _. Emits-note _ _ (Emits-empty _)))
              (λ _.
                Emits-if Restore (is_text b.wifi.ipv4_mode "manual")
                  (λ m.
                    Emits-option Restore
                      (all_given b.wifi.service_name b.wifi.ipv4_address b.wifi.subnet_mask
                        b.wifi.router)
                      (Emits-note _ _ (Emits-empty _))
                      λ (service, addr, mask, router) e.
                        let (es, ea, em, er) = all_given-eq _ _ _ _ e in
                        Emits-if Restore (not (same_ipv4 current addr mask router))
                          (λ _.
                            Emits-add _ _ _
                              (IsRestore.manual service addr mask router (is_text-eq _ _ m) es ea em
                                er refl)
                              (Emits-empty _))
                          (λ _. Emits-note _ _ (Emits-empty _)))
                  (λ _. Emits-note _ _ (Emits-empty _)))

    r4-Restore : Emits Restore (plan_r4_dns host (some b) s)
    unfolding plan_r4_dns
    r4-Restore =
        Emits-option Restore (truthy b.wifi.service_name) (Emits-note _ _ (Emits-empty _))
          λ service e.
            let current = host.dns s service in
            let named = truthy-eq _ e in
            let first =
              Emits-if Restore (not (same_texts current.servers b.wifi.dns_servers))
                {yes_plan = add (dns_command "-setdnsservers" "DNS" service b.wifi.dns_servers)
                  empty_plan}
                {no_plan = note ("R4: DNS on " <> service <> " already matches baseline")
                  empty_plan}
                (λ _. Emits-add _ _ _ (IsRestore.servers service named refl) (Emits-empty _))
                (λ _. Emits-note _ _ (Emits-empty _)) in
            Emits-if Restore (not (same_texts current.search b.wifi.search_domains))
              (λ _. Emits-add _ _ _ (IsRestore.domains service named refl) first)
              (λ _. Emits-note _ _ first)

    order-Restore :
        let current = without identity.service (ordered_names (host.services s)) in
        let want = without identity.service b.network.network_service_order in
        Emits Restore (plan_order want current empty_plan)
    unfolding plan_order
    order-Restore =
        let current = without identity.service (ordered_names (host.services s)) in
        let want = without identity.service b.network.network_service_order in
        Emits-if Restore
          (not (is_empty want) && same_set want current && not (same_texts current want))
          (λ t. Emits-add _ _ _ (IsRestore.order (ground arith) refl) (Emits-empty _))
          (λ _.
            Emits-if Restore (not (is_empty want) && not (same_set want current))
              (λ _. Emits-note _ _ (Emits-empty _)) (λ _. Emits-note _ _ (Emits-empty _)))

    r5-Restore : Emits Restore (plan_r5_order host identity (some b) s)
    unfolding plan_r5_order
    r5-Restore = record {
      each = rw r5_loop-commands (
          All-append Restore _ _ order-Restore.each (
            All-map switch_to Restore _ (
              All-In _ _ λ (name, want) m.
                let (there, switched) =
                  In-filter (needs_switch identity.service (host.services s)) (name, want)
                    b.network.service_enabled_states m in
                let (other, present) =
                  needs_switch-present identity.service (host.services s) name want switched in
                IsRestore.switch name want there other present refl)));
    }

    left : {plan : RepairPlan} → Emits Removal plan → Emits (λ c. Removal c ⊎ Restore c) plan
    left h = Emits-mono Removal (λ c. Removal c ⊎ Restore c) (λ c x. inl x) h

    right : {plan : RepairPlan} → Emits Restore plan → Emits (λ c. Removal c ⊎ Restore c) plan
    right h = Emits-mono Restore (λ c. Removal c ⊎ Restore c) (λ c x. inr x) h

    -- Without a baseline a repair plan only deletes owned routes of the table and turns the proven
    -- service off. With a baseline each command is one of those, or puts back what the baseline
    -- recorded: DHCP only if the baseline was DHCP, manual values only if it was manual and has them
    -- all, the DNS and search lists of its Wi-Fi service, an order only if it is complete, and the
    -- state of a present service other than BOOTMUX's that is in the other state.
    pub build_repair_plan-permitted :
        All Removal (build_repair_plan host identity none s).commands
        × All (λ c. Removal c ⊎ Restore c) (build_repair_plan host identity (some b) s).commands
    build_repair_plan-permitted = (
      build-each Removal none r1-Removal r2-Removal
          (unfold plan_r3_ipv4 in Emits-note _ _ (Emits-empty _))
          (unfold plan_r4_dns in Emits-note _ _ (Emits-empty _))
          (unfold plan_r5_order in Emits-note _ _ (Emits-empty _)),
      build-each (λ c. Removal c ⊎ Restore c) (some b) (left r1-Removal) (left r2-Removal)
          (right r3-Restore) (right r4-Restore) (right r5-Restore),
    )
