-- ===== src/Guardian/Plan.antt =====
-- scripts/macos/bootmux-network-guardian.py, `build_repair_plan`, over the planners R1 to R5 of the
-- child modules, and the toggle R6.
pub mod Routes
pub mod Service
pub mod Ipv4
pub mod Dns
pub mod Order
pub mod Toggle
pub mod Permitted
use bootmux.Base.{Option, ◌++◌, not, is_empty}
use bootmux.Guardian.Data.{RepairPlan, IdentityResult, Baseline, empty_plan}
use bootmux.Guardian.Host.{Host}
use Routes.{plan_r1_routes}
use Service.{plan_r2_service}
use Ipv4.{plan_r3_ipv4}
use Dns.{plan_r4_dns}
use Order.{plan_r5_order}

-- The body of the loop of `build_repair_plan`.
abbrev pub extend : RepairPlan → RepairPlan → RepairPlan
extend p sub = record p { commands = p.commands ++ sub.commands; notes = p.notes ++ sub.notes }

module _ (host : Host) where
  unfoldable pub build_repair_plan : IdentityResult → Option Baseline → host.State → RepairPlan
  build_repair_plan identity baseline s =
      let p1 = extend empty_plan (plan_r1_routes host identity s) in
      let p2 = extend p1 (plan_r2_service host identity s) in
      let p3 = extend p2 (plan_r3_ipv4 host baseline s) in
      let p4 = extend p3 (plan_r4_dns host baseline s) in
      let p5 = extend p4 (plan_r5_order host identity baseline s) in
      record p5 { needs_change = not (is_empty p5.commands) }
