-- ===== src/Guardian/SystemHost/Defaults.antt =====
-- What the rest of the guardian makes of the fact that `routes` skips the rows for `default`.
use bootmux.Base.{
  ◌≡◌, ◌≢◌, refl, inl, inr, Bool, true, false, ◌||◌, Option, none, List, [], ◌∷◌, String, ◌==◌,
  eq_iff, All, All-append, arith, filter, find, is_empty, is_text, is_zero, if_case, Bool-cases,
}
use bootmux.Base.Search.{consists}
use bootmux.Base.Lines.{split_lines, split_words}
use bootmux.Guardian.Data.{Route, Baseline, IdentityResult}
use bootmux.Guardian.SystemHost.{Machine, system_host, routes}
use bootmux.Guardian.SystemHost.Tables.{read_routes, rows_in, route_row, is_numeric}
use bootmux.Guardian.Verify.{verify, non_bootmux_default}
use bootmux.Guardian.Baseline.{capture_baseline, capture_network}
use bootmux.Guardian.Commands.{Output, cmd_repair_now}
use bootmux.Guardian.Commands.Codes.{cmd_repair_now-zero}
use bootmux.Guardian.Identity.{prove_identity}
use bootmux.Guardian.Store.{Store, ok}

abbrev NoDefault : List Route → Type 0
NoDefault = All (λ r. is_text r.destination "default" ≡ false)

numeric-not_default : (d : String) → consists is_numeric d ≡ true → (d == "default") ≡ false
numeric-not_default d h = elim (Bool-cases (d == "default")) [
  | inr differs ↦ differs
  | inl same ↦ let e : d ≡ "default" = (eq_iff d "default").0 same in cc (rw e at h)
]

route_row-NoDefault : (words : List String) → NoDefault (route_row words)
unfolding route_row
route_row-NoDefault [] = tt
route_row-NoDefault (a ∷ []) = tt
route_row-NoDefault (a ∷ b ∷ []) = tt
route_row-NoDefault (a ∷ b ∷ c ∷ []) = tt
route_row-NoDefault (dest ∷ gateway ∷ flags ∷ iface ∷ more) =
    if_case NoDefault (dest == "Destination" || dest == "Routing") [] _ (λ _. tt)
      (λ _.
        if_case NoDefault (consists is_numeric dest) _ [] (λ ok. (numeric-not_default dest ok, tt))
          (λ _. tt))

rows_in-NoDefault : (lines : List String) → NoDefault (rows_in lines)
unfolding rows_in
rows_in-NoDefault [] = tt
rows_in-NoDefault (line ∷ lines) =
    All-append (λ r. is_text r.destination "default" ≡ false) (route_row (split_words line))
      (rows_in lines) (route_row-NoDefault (split_words line)) (rows_in-NoDefault lines)

filter-none : (p : Route → Bool) (rs : List Route) → All (λ r. p r ≡ false) rs → filter p rs ≡ []
filter-none p [] h = refl
filter-none p (r ∷ rs) (h, hs) = ground (arith, filter-none p rs hs)

find-none : (p : Route → Bool) (rs : List Route) → All (λ r. p r ≡ false) rs → find p rs ≡ none
find-none p [] h = refl
find-none p (r ∷ rs) (h, hs) = ground (arith, find-none p rs hs)

no_defaults :
    (iface : Option String) (rs : List Route)
    → NoDefault rs
    → is_empty (non_bootmux_default iface rs) ≡ true
unfolding non_bootmux_default
no_defaults iface rs h = rw (filter-none (λ r. is_text r.destination "default") rs h) refl

module _ (machine : Machine) where
  -- The table that `routes` gives has no row for `default`.
  pub routes-NoDefault :
      (s : machine.Mac) → All (λ r. is_text r.destination "default" ≡ false) (routes machine s)
  unfolding routes read_routes
  routes-NoDefault s =
      let reply = (machine.cmd ("netstat" ∷ "-rn" ∷ "-f" ∷ "inet" ∷ []) s).0 in
      if_case NoDefault (is_zero reply.returncode) (rows_in (split_lines reply.stdout)) []
        (λ _. rows_in-NoDefault (split_lines reply.stdout)) (λ _. tt)

  -- On a real Mac the verification never finds the default route restored.
  pub verify-never_restored :
      (identity : IdentityResult) (baseline : Option Baseline) (s : machine.Mac)
      → (verify (system_host machine) identity baseline s).wifi_default_route_restored ≡ false
  unfolding verify
  verify-never_restored identity baseline s =
      rw (no_defaults identity.interface (routes machine s) (routes-NoDefault s)) refl

  -- A baseline of a real Mac has no default route.
  pub capture_baseline-no_default :
      (s : machine.Mac)
      → ((capture_baseline (system_host machine) s).network.default_gateway ≡ none)
        × ((capture_baseline (system_host machine) s).network.default_interface ≡ none)
  unfolding capture_baseline capture_network
  capture_baseline-no_default s =
      rw (find-none (λ r. is_text r.destination "default") (routes machine s) (routes-NoDefault s))
        (refl, refl)

  -- On a real Mac `--repair-now` never exits with 0, whatever it repairs and whatever state it leaves:
  -- SystemHost skips the rows for `default` that the check wifi_default_route_restored looks for.
  pub cmd_repair_now-never_zero :
      (st : Store) (s : machine.Mac) (out : Output)
      → (cmd_repair_now (system_host machine) st s).0 ≢ ok (out, 0)
  cmd_repair_now-never_zero st s out h =
      let (baseline, _, checks) = cmd_repair_now-zero (system_host machine) st s h in
      let restored = checks.1.1.1.1.1.1.0 in
      let never =
        verify-never_restored (prove_identity (system_host machine) s) baseline
          (cmd_repair_now (system_host machine) st s).1 in
      cc
