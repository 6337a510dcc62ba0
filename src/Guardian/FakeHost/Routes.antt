-- ===== src/Guardian/FakeHost/Routes.antt =====
-- What the planned commands do to the routing table of the simulated host.
use mathlib.Core.List.{reverse-append}
use bootmux.Base.{
  ◌≡◌, refl, sym, ap, ◌∙◌, Bool, true, not, none, some, List, [], ◌∷◌, ◌++◌, map, String, arith,
  filter, All, filter-All, filter-filter,
}
use bootmux.Guardian.Data.{Route, IdentityResult, bootmux_peer}
use bootmux.Guardian.Execute.{execute_plan}
use bootmux.Guardian.Execute.Total.{run_all, execute_plan-total}
use bootmux.Guardian.FakeHost.{
  Fake, fake_host, fake_run, simulate, route_matches_delete, gateway_arg, find_quad, is_dotted_quad,
  lookup_result,
}
use bootmux.Guardian.Identity.{via_peer}
use bootmux.Guardian.Plan.Routes.{
  owned, delete_route, delete_route-peer, plan_r1_routes, plan_r1_routes-owned,
}

-- The last word of a deletion through BOOTMUX's gateway is that gateway.
gateway_arg-append :
    (words : List String)
    → gateway_arg ("route" ∷ "-n" ∷ "delete" ∷ (words ++ bootmux_peer ∷ [])) ≡ some bootmux_peer
unfolding gateway_arg find_quad is_dotted_quad
gateway_arg-append words = rw (reverse-append ("route" ∷ "-n" ∷ "delete" ∷ words)) refl

abbrev other : Route → Bool
other r = not (via_peer r)

filter-cong :
    (p q : Route → Bool)
    → ((r : Route) → p r ≡ q r)
    → (routes : List Route) → filter p routes ≡ filter q routes
filter-cong p q h [] = refl
filter-cong p q h (r ∷ routes) = rw (h r, filter-cong p q h routes) refl

matches-peer :
    (words : List String) (q : Route)
    → route_matches_delete q ("route" ∷ "-n" ∷ "delete" ∷ (words ++ bootmux_peer ∷ [])) ≡ via_peer q
unfolding route_matches_delete
matches-peer words q = rw (route_matches_delete, gateway_arg-append words) refl

deletion :
    (words : List String) (f : Fake)
    → f.run_results ≡ []
    → let f' = (fake_run ("route" ∷ "-n" ∷ "delete" ∷ (words ++ bootmux_peer ∷ [])) f).1 in
      (f'.routes ≡ filter other f.routes) × (f'.run_results ≡ [])
unfolding fake_run simulate lookup_result
deletion words f h =
    rw (h, fake_run) (filter-cong _ other (λ q. ap not (matches-peer words q)) f.routes, h)

delete_route-fake :
    (r : Route) (f : Fake)
    → via_peer r ≡ true
    → f.run_results ≡ []
    → let f' = (fake_run (delete_route r).argv f).1 in
      (f'.routes ≡ filter other f.routes) × (f'.run_results ≡ [])
delete_route-fake r f h k = let (words, e) = delete_route-peer r h in rw e (deletion words f k)

filter-other_twice :
    (routes : List Route) → filter other (filter other routes) ≡ filter other routes
filter-other_twice routes = rw filter-filter (filter-cong _ other (λ q. ground arith) routes)

-- Once no route is left, further deletions change nothing.
run_all-same :
    (rs : List Route) (f : Fake) (left : List Route)
    → All (λ r. via_peer r ≡ true) rs
    → f.run_results ≡ []
    → f.routes ≡ filter other left
    → (run_all fake_host (map delete_route rs) f).routes ≡ filter other left
run_all-same [] f left h k e = e
run_all-same (r ∷ rs) f left (h, hs) k e =
    let (gone, scripted) = delete_route-fake r f h k in
    run_all-same rs _ left hs scripted (gone ∙ ap (filter other) e ∙ filter-other_twice left)

owned-filter : (routes : List Route) → filter (owned none) routes ≡ filter via_peer routes
owned-filter routes = filter-cong (owned none) via_peer (λ q. ground arith) routes

filter-other_all :
    (routes : List Route) → filter via_peer routes ≡ [] → filter other routes ≡ routes
filter-other_all [] h = refl
filter-other_all (r ∷ routes) h = ground (arith, filter-other_all routes)

run_all-filter :
    (rs : List Route) (f : Fake)
    → filter via_peer f.routes ≡ rs
    → All (λ r. via_peer r ≡ true) rs
    → f.run_results ≡ []
    → (run_all fake_host (map delete_route rs) f).routes ≡ filter other f.routes
run_all-filter [] f e h k = sym (filter-other_all f.routes e)
run_all-filter (r ∷ rs) f e (h, hs) k =
    let (gone, scripted) = delete_route-fake r f h k in run_all-same rs _ f.routes hs scripted gone

-- On the simulated host, with no scripted replies and no interface named, executing the plan of R1
-- removes every route through BOOTMUX's gateway and keeps all the others, in their order.
pub execute_plan-removes_routes :
    (identity : IdentityResult) (f : Fake)
    → identity.interface ≡ none
    → f.run_results ≡ []
    → (execute_plan fake_host (plan_r1_routes fake_host identity f) f).1.routes
      ≡ filter (λ r. not (via_peer r)) f.routes
execute_plan-removes_routes identity f e k =
    let plan = plan_r1_routes fake_host identity f in
    let commands =
      plan_r1_routes-owned fake_host identity f
      ∙ ap (λ iface. map delete_route (filter (owned iface) f.routes)) e
      ∙ ap (map delete_route) (owned-filter f.routes) in
    ap (λ s. s.routes)
      ((execute_plan-total fake_host plan f).0 ∙ ap (λ cs. run_all fake_host cs f) commands)
    ∙ run_all-filter (filter via_peer f.routes) f refl (filter-All via_peer f.routes) k
