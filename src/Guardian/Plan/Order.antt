-- ===== src/Guardian/Plan/Order.antt =====
-- scripts/macos/bootmux-network-guardian.py, `plan_r5_order` (R5).
use mathlib.Core.List.{append-nil, append_assoc}
use bootmux.Base.{
  ◌≡◌, sym, inl, inr, ◌++◌, arith, Bool-cases, Bool, true, false, not, ◌&&◌, Option, none, some,
  List, [], ◌∷◌, map, String, ◌<>◌, ◌==◌, filter, is_empty, is_text, leb, same_texts, same_set,
  if◌then◌else◌,
}
use bootmux.Guardian.Data.{
  Command, RepairPlan, IdentityResult, Baseline, Service, add, note, empty_plan,
}
use bootmux.Guardian.Host.{Host}

-- `sorted(services, key=lambda s: s.get("order", 0))`, which is stable.
insert_by_order : Service → List Service → List Service
insert_by_order x [] = x ∷ []
insert_by_order x (y ∷ ys) =
    let rest = insert_by_order x ys in if leb x.order y.order then x ∷ y ∷ ys else y ∷ rest

unfoldable pub sort_by_order : List Service → List Service
unfolding insert_by_order
sort_by_order [] = []
sort_by_order (x ∷ xs) = insert_by_order x (sort_by_order xs)

-- The names in order, without the BOOTMUX service.
unfoldable pub without : Option String → List String → List String
without service = filter (λ n. not (is_text service n))

unfoldable pub ordered_names : List Service → List String
unfolding sort_by_order
ordered_names services = map (λ s. s.name) (sort_by_order services)

-- `current_enabled`, the dict of the services by name: the last of a name counts.
unfoldable pub current_enabled : List Service → String → Option Bool
current_enabled [] name = none
current_enabled (svc ∷ services) name = elim (current_enabled services name) [
  | none ↦ if svc.name == name then some svc.enabled else none
  | some enabled ↦ some enabled
]

abbrev pub same_state : Bool → Bool → Bool
same_state true b = b
same_state false b = not b

abbrev pub order_command : List String → Command
order_command order = record {
  argv = "networksetup" ∷ "-ordernetworkservices" ∷ order;
  step = "R5";
  purpose = "restore network service order";
  target_interface = none;
  target_service = none;
}

abbrev pub enable_command : String → Bool → Command
enable_command name want = record {
  argv = "networksetup" ∷ "-setnetworkserviceenabled" ∷ name ∷ (if want then "on" else "off") ∷ [];
  step = "R5";
  purpose = "restore enabled state of " <> name;
  target_interface = none;
  target_service = some name;
}

unfoldable pub plan_order : List String → List String → RepairPlan → RepairPlan
plan_order want current plan =
    if not (is_empty want) && same_set want current && not (same_texts current want)
    then add (order_command want) plan
    else if not (is_empty want) && not (same_set want current)
    then note "R5: service set differs from baseline; refusing partial order" plan
    else note "R5: service order already matches baseline" plan

-- Whether the loop over `want_enabled` changes a service: not BOOTMUX's, and not one that is gone.
unfoldable pub needs_switch : Option String → List Service → String × Bool → Bool
unfolding current_enabled
needs_switch service services (name, want) =
    not (is_text service name) && elim (current_enabled services name) [
      | none ↦ false
      | some enabled ↦ not (same_state enabled want)
    ]

abbrev pub switch_to : String × Bool → Command
switch_to (name, want) = enable_command name want

unfoldable pub r5_loop :
    Option String → List Service → List (String × Bool) → RepairPlan → RepairPlan
unfolding needs_switch
r5_loop service services [] plan = plan
r5_loop service services (e ∷ wanted) plan =
    r5_loop service services wanted
      (if needs_switch service services e then add (switch_to e) plan else plan)

module _ (host : Host) where
  unfoldable pub plan_r5_order : IdentityResult → Option Baseline → host.State → RepairPlan
  unfolding plan_order r5_loop without ordered_names
  plan_r5_order identity none s = note "R5: no baseline; not inventing service order" empty_plan
  plan_r5_order identity (some b) s =
      let services = host.services s in
      let current = without identity.service (ordered_names services) in
      let want = without identity.service b.network.network_service_order in
      r5_loop identity.service services b.network.service_enabled_states
        (plan_order want current empty_plan)

pub r5_loop-commands :
    (service : Option String) (services : List Service) (wanted : List (String × Bool))
    (plan : RepairPlan)
    → (r5_loop service services wanted plan).commands
      ≡ plan.commands ++ map switch_to (filter (needs_switch service services) wanted)
unfolding r5_loop
r5_loop-commands service services [] plan = sym (append-nil _)
r5_loop-commands service services (e ∷ wanted) plan =
    elim (Bool-cases (needs_switch service services e)) [
      | inl yes_switch ↦ rw (r5_loop-commands service services wanted, yes_switch, append_assoc)
      | inr no_switch ↦ rw (r5_loop-commands service services wanted, no_switch)
    ]

-- A service that the loop switches is not BOOTMUX's, is present, and is in the other state.
pub needs_switch-present :
    (service : Option String) (services : List Service) (name : String) (want : Bool)
    → needs_switch service services (name, want) ≡ true
    → (is_text service name ≡ false) × (current_enabled services name ≡ some (not want))
unfolding needs_switch
needs_switch-present service services name want h = ground arith
