-- ===== src/Oracle/Physical/Unchanged.antt =====
-- When the command `compare` exits with 0.
use bootmux.Base.{
  ◌≡◌, ◌↔◌, refl, ap, ℕ, Bool, true, false, not, ◌&&◌, Option, none, some, List, [], ◌∷◌, ◌++◌,
  String, ◌==◌, eq_iff, eq_ℕ, is_empty, All, arith, same_text, same_texts, same_texts-eq,
  same_texts_self, if◌then◌else◌,
}
use bootmux.Guardian.Host.{Host}
use bootmux.Oracle.Physical.{Snapshot, sanitize_snapshot}
use bootmux.Oracle.Physical.Compare.{
  Saved, matches, same_power, same_states, invariant_fields, violations_of, violation_if,
  compare_invariants, compare,
}

-- The fields that were saved are those of the snapshot; the states are compared as dicts.
abbrev pub Unchanged : Saved → Snapshot → Type 0
Unchanged b c =
    (b.power ≡ some c.wifi.power)
    × (b.ssid_token ≡ some c.wifi.ssid_token)
    × (b.ipv4_mode ≡ some c.wifi.ipv4_mode)
    × (b.dns_server_count ≡ some c.wifi.dns_server_count)
    × (b.dns_server_tokens ≡ some c.wifi.dns_server_tokens)
    × (b.default_interface ≡ some c.network.default_interface)
    × (b.default_gateway_class ≡ some c.network.default_gateway_class)
    × (b.network_service_order ≡ some c.network.network_service_order)
    × (matches same_states b.service_enabled_states c.network.service_enabled_states ≡ true)

the_same {ℓ} : {A : Type ℓ} {b c : A} → some b ≡ some c → b ≡ c
the_same h = cc

-- A test that decides equality.
abbrev Decides {ℓ} : {A : Type ℓ} → (A → A → Bool) → Type ℓ
Decides {A} eq = (b c : A) → (eq b c ≡ true) ↔ (b ≡ c)

matches_iff {ℓ} :
    {A : Type ℓ} (eq : A → A → Bool)
    → Decides eq
    → (o : Option A) (c : A) → (matches eq o c ≡ true) ↔ (o ≡ some c)
matches_iff eq d none c = (λ h. cc, λ h. cc)
matches_iff eq d (some b) c = (λ h. ap some ((d b c).0 h), λ h. (d b c).1 (the_same h))

power_iff : Decides same_power
power_iff none none = (λ _. refl, λ _. refl)
power_iff none (some c) = (λ h. cc, λ h. cc)
power_iff (some b) none = (λ h. cc, λ h. cc)
power_iff (some true) (some true) = (λ _. refl, λ _. refl)
power_iff (some true) (some false) = (λ h. cc, λ h. cc)
power_iff (some false) (some true) = (λ h. cc, λ h. cc)
power_iff (some false) (some false) = (λ _. refl, λ _. refl)

string_iff : Decides (λ x y. x == y)
string_iff b c = eq_iff b c

text_iff : Decides same_text
text_iff none none = (λ _. refl, λ _. refl)
text_iff none (some c) = (λ h. cc, λ h. cc)
text_iff (some b) none = (λ h. cc, λ h. cc)
text_iff (some b) (some c) = (λ h. ap some ((eq_iff b c).0 h), λ h. (eq_iff b c).1 (the_same h))

texts_iff : Decides same_texts
texts_iff b c = (same_texts-eq b c, λ e. rw e (same_texts_self c))

number_iff : Decides eq_ℕ
number_iff b c = (λ h. ground arith, λ h. ground arith)

violations_none :
    (fields : List (String × Bool))
    → (is_empty (violations_of fields) ≡ true) ↔ All (λ e. e.1 ≡ true) fields
unfolding violations_of
violations_none [] = (λ _. tt, λ _. refl)
violations_none ((name, b) ∷ fields) =
    let (there, back) = violations_none fields in
    (λ h. (ground arith, there (ground arith)), λ (h, hs). let k = back hs in ground arith)

empty_append :
    (xs ys : List String)
    → (is_empty (xs ++ ys) ≡ true) ↔ ((is_empty xs ≡ true) × (is_empty ys ≡ true))
empty_append [] ys = (λ h. (refl, h), λ (_, h). h)
empty_append (x ∷ xs) ys = (λ h. cc, λ (h, _). cc)

fields_iff :
    (b : Saved) (c : Snapshot) → All (λ e. e.1 ≡ true) (invariant_fields b c) ↔ Unchanged b c
unfolding invariant_fields
fields_iff b c =
    let r0 = matches_iff same_power power_iff b.power c.wifi.power in
    let r1 = matches_iff (λ x y. x == y) string_iff b.ssid_token c.wifi.ssid_token in
    let r2 = matches_iff same_text text_iff b.ipv4_mode c.wifi.ipv4_mode in
    let r3 = matches_iff eq_ℕ number_iff b.dns_server_count c.wifi.dns_server_count in
    let r4 = matches_iff same_texts texts_iff b.dns_server_tokens c.wifi.dns_server_tokens in
    let r5 = matches_iff same_text text_iff b.default_interface c.network.default_interface in
    let r6 =
      matches_iff (λ x y. x == y) string_iff b.default_gateway_class
        c.network.default_gateway_class in
    let r7 =
      matches_iff same_texts texts_iff b.network_service_order c.network.network_service_order in
    (
      λ (h0, (h1, (h2, (h3, (h4, (h5, (h6, (h7, (h8, _))))))))).
          (r0.0 h0, r1.0 h1, r2.0 h2, r3.0 h3, r4.0 h4, r5.0 h5, r6.0 h6, r7.0 h7, h8),
      λ (h0, h1, h2, h3, h4, h5, h6, h7, h8). (
        r0.1 h0,
        (r1.1 h1, (r2.1 h2, (r3.1 h3, (r4.1 h4, (r5.1 h5, (r6.1 h6, (r7.1 h7, (h8, tt)))))))),
      ),
    )

unclean :
    (require_clean : Bool) (services : List String)
    → (is_empty (violation_if (require_clean && not (is_empty services)) "bootmux_services_absent")
        ≡ true)
      ↔ ((require_clean && not (is_empty services)) ≡ false)
unclean require_clean services = (λ h. ground arith, λ h. ground arith)

code_of : Bool → ℕ
code_of test = if test then 0 else 1

code_zero : (test : Bool) → (code_of test ≡ 0) ↔ (test ≡ true)
unfolding code_of
code_zero test = (λ h. ground arith, λ h. ground arith)

module _ (host : Host) (sha256 : String → String) where
  -- `compare` exits with 0 on a saved baseline exactly when its nine fields are those of the Mac and, with
  -- --require-clean, no service in the order is named after BOOTMUX. No route counts but the default one.
  pub compare-zero_iff :
      (saved : Saved) (require_clean : Bool) (s : host.State)
      → let current = sanitize_snapshot host sha256 s in
        (compare host sha256 (some saved) require_clean s ≡ 0) ↔ (
          Unchanged saved current
          × ((require_clean && not (is_empty current.bootmux_services)) ≡ false))
  unfolding compare compare_invariants code_of
  compare-zero_iff saved require_clean s =
      let current = sanitize_snapshot host sha256 s in
      let fields = invariant_fields saved current in
      let (there, back) = violations_none fields in
      let (equal, unequal) = fields_iff saved current in
      let (dirty, clean) = unclean require_clean current.bootmux_services in
      let (both, joined) = empty_append (violations_of fields) (
        violation_if (require_clean && not (is_empty current.bootmux_services))
          "bootmux_services_absent") in
      (
        λ h. let (a, b) = both ((code_zero _).0 h) in (equal (there a), dirty b),
        λ (a, b). (code_zero _).1 (joined (back (unequal a), clean b)),
      )
