-- ===== src/Guardian/Plan/Routes.antt =====
-- scripts/macos/bootmux-network-guardian.py, `plan_r1_routes` (R1) and `_is_link_gateway`.
use mathlib.Core.List.{append-nil, append_assoc}
use bootmux.Base.{
  ◌≡◌, sym, refl, is_text-eq, inl, inr, map, filter, arith, Bool-cases, true, Bool, false, ◌||◌,
  Option, none, some, List, [], ◌∷◌, ◌++◌, String, ◌<>◌, is_empty, is_text, truthy, text_in, lower,
  codes, codes_start, show_text, if◌then◌else◌,
}
use bootmux.Guardian.Data.{
  Command, RepairPlan, IdentityResult, Route, add, note, empty_plan, bootmux_peer,
}
use bootmux.Guardian.Host.{Host}

-- `bool(gateway) and gateway.lower().startswith("link#")`
unfoldable pub is_link_gateway : Option String → Bool
unfolding lower codes_start
is_link_gateway gateway = elim (truthy gateway) [
  | none ↦ false
  | some text ↦ codes_start (lower text) (codes "link#")
]

-- `iface is not None and rif == iface`
abbrev pub through : Option String → Route → Bool
through none r = false
through (some iface) r = is_text r.interface iface

-- The test `owned`.
abbrev pub owned : Option String → Route → Bool
owned iface r = is_text r.gateway bootmux_peer || through iface r

-- The words that name the destination.
destination_words : Option String → Option String → String → List String
destination_words dest rif flags =
    if is_text dest "default"
    then "default"
      ∷ (if text_in "I" flags
          then elim (truthy rif) [ none ↦ [] | some i ↦ "-ifscope" ∷ i ∷ [] ]
          else [])
    else elim (truthy dest) [
      | none ↦ "-host" ∷ "default" ∷ []
      | some d ↦ if text_in "/" d then "-net" ∷ d ∷ [] else "-host" ∷ d ∷ []
    ]

gateway_words : Option String → List String
unfolding is_link_gateway
gateway_words gateway = elim (truthy gateway) [
  | none ↦ []
  | some g ↦ if is_link_gateway gateway then [] else g ∷ []
]

-- The command for one owned route.
unfoldable pub delete_route : Route → Command
unfolding destination_words gateway_words
delete_route r = record {
  argv =
      "route"
      ∷ "-n"
      ∷ "delete"
      ∷ (destination_words r.destination r.interface r.flags ++ gateway_words r.gateway);
  step = "R1";
  purpose =
      "remove BOOTMUX route "
      <> show_text r.destination
      <> " via "
      <> show_text r.gateway
      <> " ("
      <> show_text r.interface
      <> ")";
  target_interface = r.interface;
  target_service = none;
}

-- The loop over `host.routes()`.
r1_loop : Option String → List Route → RepairPlan → RepairPlan
r1_loop iface [] plan = plan
r1_loop iface (r ∷ routes) plan =
    r1_loop iface routes (if owned iface r then add (delete_route r) plan else plan)

module _ (host : Host) where
  unfoldable pub plan_r1_routes : IdentityResult → host.State → RepairPlan
  unfolding r1_loop
  plan_r1_routes identity s =
      let plan = r1_loop identity.interface (host.routes s) empty_plan in
      if is_empty plan.commands then note "R1: no BOOTMUX-owned routes present" plan else plan

r1_loop-commands :
    (iface : Option String) (routes : List Route) (plan : RepairPlan)
    → (r1_loop iface routes plan).commands
      ≡ plan.commands ++ map delete_route (filter (owned iface) routes)
unfolding r1_loop
r1_loop-commands iface [] plan = sym (append-nil _)
r1_loop-commands iface (r ∷ routes) plan = elim (Bool-cases (owned iface r)) [
  | inl mine ↦ rw (r1_loop-commands iface routes, mine, append_assoc)
  | inr other ↦ rw (r1_loop-commands iface routes, other)
]

-- The deletion of a route through BOOTMUX's gateway ends in that gateway.
pub delete_route-peer :
    (r : Route)
    → is_text r.gateway bootmux_peer ≡ true
    → (words : List String) × ((delete_route r).argv
        ≡ "route" ∷ "-n" ∷ "delete" ∷ (words ++ bootmux_peer ∷ []))
unfolding delete_route gateway_words is_link_gateway lower codes_start
delete_route-peer r h = (
  destination_words r.destination r.interface r.flags,
  rw (is_text-eq r.gateway bootmux_peer h) refl,
)

module _ (host : Host) where
  -- R1 plans exactly one deletion for each route through BOOTMUX's gateway or interface, in the
  -- order of the table, and no other command.
  pub plan_r1_routes-owned :
      (identity : IdentityResult) (s : host.State)
      → (plan_r1_routes host identity s).commands
        ≡ map delete_route (filter (owned identity.interface) (host.routes s))
  unfolding plan_r1_routes
  plan_r1_routes-owned identity s =
      ground (arith, r1_loop-commands identity.interface (host.routes s) empty_plan)
