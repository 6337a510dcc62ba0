-- ===== src/Guardian/SystemHost/Enabled.antt =====
-- What the rest of the guardian makes of the fact that `services` marks each service as enabled.
use bootmux.Base.{
  ◌≡◌, refl, true, false, Option, none, some, List, [], ◌∷◌, String, All, All-append, arith,
  is_zero, truthy, truthy-eq, if_case, Option-cases, inl, inr,
}
use bootmux.Base.Search.{search}
use bootmux.Base.Lines.{split_lines}
use bootmux.Guardian.Data.{Service, IdentityResult, Baseline}
use bootmux.Guardian.Plan.Service.{enabled_of, disable_command, plan_r2_service}
use bootmux.Guardian.SystemHost.{Machine, system_host, services}
use bootmux.Guardian.SystemHost.Tables.{
  read_services, services_in, service_head, new_service, on_device, at_device, service_device,
  flush_service,
}
use bootmux.Guardian.Verify.{verify, service_disabled}

abbrev Enabled : List Service → Type 0
Enabled = All (λ svc. svc.enabled ≡ true)

device-Enabled :
    (svc : Service) (d : Option String) → svc.enabled ≡ true → (at_device svc d).enabled ≡ true
device-Enabled svc none h = h
device-Enabled svc (some d) h = h

on_device-Enabled :
    (line : String) (current : Option Service)
    → Enabled (flush_service current)
    → Enabled (flush_service (on_device line current))
unfolding on_device
on_device-Enabled line none h = tt
on_device-Enabled line (some svc) (h, _) = (device-Enabled svc (search service_device line) h, tt)

services_in-Enabled :
    (current : Option Service) (lines : List String)
    → Enabled (flush_service current)
    → Enabled (services_in current lines)
unfolding services_in new_service
services_in-Enabled current [] h = h
services_in-Enabled current (line ∷ lines) h = elim (Option-cases (service_head line)) [
  | inl other ↦
      rw (other, services_in)
        (services_in-Enabled (on_device line current) lines (on_device-Enabled line current h))
  | inr ((n, name), head) ↦
      rw (head, services_in)
        (All-append (λ svc. svc.enabled ≡ true) (flush_service current) _ h
          (services_in-Enabled (some (new_service n name)) lines (refl, tt)))
]

enabled_of-Enabled :
    (name : String) (services : List Service) → Enabled services → enabled_of name services ≡ true
unfolding enabled_of
enabled_of-Enabled name [] h = refl
enabled_of-Enabled name (svc ∷ services) (h, hs) =
    ground (arith, enabled_of-Enabled name services hs)

module _ (machine : Machine) where
  services-Enabled : (s : machine.Mac) → Enabled (services machine s)
  unfolding services read_services
  services-Enabled s =
      let reply = (machine.cmd ("networksetup" ∷ "-listnetworkserviceorder" ∷ []) s).0 in
      if_case Enabled (is_zero reply.returncode) (services_in none (split_lines reply.stdout)) []
        (λ _. services_in-Enabled none (split_lines reply.stdout) tt) (λ _. tt)

  -- On a real Mac, in any state, an identity's service is taken to be enabled: R2 plans to turn it off,
  -- and the verification does not find it disabled.
  pub service-always_enabled :
      (identity : IdentityResult) (baseline : Option Baseline) (s : machine.Mac) (name : String)
      → truthy identity.service ≡ some name
      → ((plan_r2_service (system_host machine) identity s).commands ≡ disable_command name ∷ [])
        × ((verify (system_host machine) identity baseline s).bootmux_service_disabled ≡ false)
  unfolding plan_r2_service verify service_disabled
  service-always_enabled identity baseline s name h =
      let on = enabled_of-Enabled name (services machine s) (services-Enabled s) in
      let e = truthy-eq identity.service h in
      let k : truthy (some name) ≡ some name = rw e at h in
      (rw (h, on, plan_r2_service) refl, rw (e, k, on, service_disabled) refl)
