-- ===== src/Oracle/Physical/Compare.antt =====
-- scripts/macos/bootmux-physical-oracle.py, `compare_invariants` and the command `compare`. Of the report
-- the names of the violations are kept. A value that was saved with another type than the tool writes is
-- taken as unreadable; both are violations.
use bootmux.Base.{
  ℕ, Bool, true, false, not, ◌&&◌, Option, none, some, List, [], ◌∷◌, ◌++◌, map, String, ◌==◌, eq_ℕ,
  all, filter, is_empty, same_text, same_texts, if◌then◌else◌,
}
use bootmux.Base.Dict.{get}
use bootmux.Guardian.Host.{Host}
use bootmux.Oracle.Physical.{Snapshot, sanitize_snapshot}

-- What `json.loads` gives of a saved snapshot; a key that is not there is not given.
pub record Saved : Type 0 where
  pub power : Option (Option Bool)
  pub ssid_token : Option String
  pub ipv4_mode : Option (Option String)
  pub dns_server_count : Option ℕ
  pub dns_server_tokens : Option (List String)
  pub default_interface : Option (Option String)
  pub default_gateway_class : Option String
  pub network_service_order : Option (List String)
  pub service_enabled_states : Option (List (String × Bool))

-- `b == c`, where `b` can be read.
abbrev pub matches {ℓ} : {A : Type ℓ} → (A → A → Bool) → Option A → A → Bool
matches eq none c = false
matches eq (some b) c = eq b c

abbrev pub same_bool : Bool → Bool → Bool
same_bool true b = b
same_bool false b = not b

abbrev pub same_power : Option Bool → Option Bool → Bool
same_power none none = true
same_power none (some c) = false
same_power (some b) none = false
same_power (some b) (some c) = same_bool b c

abbrev has_entry : List (String × Bool) → String × Bool → Bool
has_entry d (name, state) = matches same_bool (get name d) state

-- Equality of dicts.
unfoldable pub same_states : List (String × Bool) → List (String × Bool) → Bool
unfolding get
same_states b c = all (has_entry c) b && all (has_entry b) c

-- INVARIANT_FIELDS: each with whether it is equal.
unfoldable pub invariant_fields : Saved → Snapshot → List (String × Bool)
unfolding same_states
invariant_fields b c =
    ("wifi.power", matches same_power b.power c.wifi.power)
    ∷ ("wifi.ssid_token", matches (λ x y. x == y) b.ssid_token c.wifi.ssid_token)
    ∷ ("wifi.ipv4_mode", matches same_text b.ipv4_mode c.wifi.ipv4_mode)
    ∷ ("wifi.dns_server_count", matches eq_ℕ b.dns_server_count c.wifi.dns_server_count)
    ∷ ("wifi.dns_server_tokens", matches same_texts b.dns_server_tokens c.wifi.dns_server_tokens)
    ∷ (
      "network.default_interface",
      matches same_text b.default_interface c.network.default_interface,
    )
    ∷ (
      "network.default_gateway_class",
      matches (λ x y. x == y) b.default_gateway_class c.network.default_gateway_class,
    )
    ∷ (
      "network.network_service_order",
      matches same_texts b.network_service_order c.network.network_service_order,
    )
    ∷ (
      "network.service_enabled_states",
      matches same_states b.service_enabled_states c.network.service_enabled_states,
    )
    ∷ []

abbrev pub violation_if : Bool → String → List String
violation_if true name = name ∷ []
violation_if false name = []

-- The loop over the fields.
unfoldable pub violations_of : List (String × Bool) → List String
violations_of fields = map (λ e. e.0) (filter (λ e. not e.1) fields)

unfoldable pub compare_invariants : Saved → Snapshot → Bool → List String
unfolding violations_of invariant_fields
compare_invariants baseline current require_clean =
    violations_of (invariant_fields baseline current)
    ++ (violation_if (not (is_empty current.network.bootmux_routes)) "bootmux_routes_absent"
        ++ violation_if (require_clean && not (is_empty current.bootmux_services))
            "bootmux_services_absent")

module _ (host : Host) (sha256 : String → String) where
  -- The command `compare`, from what is in the file where it exists: the exit code.
  unfoldable pub compare : Option Saved → Bool → host.State → ℕ
  unfolding compare_invariants sanitize_snapshot
  compare none require_clean s = 2
  compare (some baseline) require_clean s =
      if is_empty (compare_invariants baseline (sanitize_snapshot host sha256 s) require_clean)
      then 0
      else 1
