-- ===== src/Guardian/Daemon.antt =====
-- scripts/macos/bootmux-network-guardian.py, `class Guardian`: the daemon's state machine.
pub mod Steps
pub mod Safety
pub mod StoreFaults
use bootmux.Base.{
  ℕ, ◌+◌, Bool, true, false, not, ◌&&◌, ◌||◌, Option, none, some, List, [], ◌∷◌, leb, any,
  if◌then◌else◌,
}
use bootmux.Guardian.Baseline.{host_is_clean, capture_baseline}
use bootmux.Guardian.Data.{
  IdentityResult, Baseline, bootmux_peer, baseline_stability, heartbeat_fail,
}
use bootmux.Guardian.Host.{Host}
use bootmux.Guardian.Identity.{prove_identity, bootmux_usb_present, via_peer}
use bootmux.Guardian.Repair.{Report, repair_once}
use bootmux.Guardian.Store.{
  Store, StoreError, state_store, json_decode, file_exists, Raised, Result, ok, raised, is_dir,
  validate_dir, read_baseline, write_baseline,
}

-- `self.state`
pub data Mode : Type 0 where
  start fail_closed attached audit_only no_bootmux : Mode

pub record Guardian : Type 0 where
  pub stability : ℕ
  pub fail_limit : ℕ
  pub mode : Mode
  pub stable_since : Option ℕ
  pub heartbeat_fail_since : Option ℕ
  pub was_attached : Bool
  pub last_wifi_toggle_at : Option ℕ

-- `Guardian(host, store)`
abbrev pub new_guardian : Guardian
new_guardian = record {
  stability = baseline_stability;
  fail_limit = heartbeat_fail;
  mode = start;
  stable_since = none;
  heartbeat_fail_since = none;
  was_attached = false;
  last_wifi_toggle_at = none;
}

pub data Reason : Type 0 where
  heartbeat_loss stale_route usb_detached : Reason

-- report["action"] of a tick, with what goes with each.
pub data Action : Type 0 where
  failed_closed : StoreError → Action
  monitor_attached heartbeat_failing audited : Action
  repairing : Reason → Report → Action
  baseline_captured stable_but_not_clean monitoring_idle : Action

-- `_store_valid`: the error that it turns into a string.
unfoldable pub store_valid : Store → Option StoreError
store_valid st =
    if is_dir st.root_kind || st.root_link
    then elim (validate_dir st) [
      | ok _ ↦ none
      | raised (state_store e) ↦ some e
      | raised json_decode ↦ none
      | raised file_exists ↦ none
    ]
    else none

-- `_existing_baseline`: a StateStoreError counts as no baseline, anything else is raised.
unfoldable pub existing_baseline : Store → Result (Option Baseline)
existing_baseline st = elim (read_baseline st) [
  | ok baseline ↦ ok baseline
  | raised (state_store e) ↦ ok none
  | raised json_decode ↦ raised json_decode
  | raised file_exists ↦ raised file_exists
]

-- `since if since is not None else now`
abbrev pub since_or : Option ℕ → ℕ → ℕ
since_or none now = now
since_or (some t) now = t

abbrev pub is_none : Option Baseline → Bool
is_none none = true
is_none (some b) = false

-- The report of a tick: its time, the state before it, and what it did.
pub record TickReport : Type 0 where
  pub time : ℕ
  pub mode : Mode
  pub action : Action

abbrev pub stamp : ℕ → Mode → Result Action → Result TickReport
stamp now mode (raised e) = raised e
stamp now mode (ok a) = ok (record { time = now; mode = mode; action = a })

module _ (host : Host) where
  -- What a tick leaves behind: its report or what it raises, the daemon, the store and the host.
  abbrev pub Outcome : Type 0
  Outcome = Result Action × Guardian × Store × host.State

  -- `_do_repair`, with `was_attached` and `heartbeat_fail_since` as the caller leaves them.
  unfoldable pub do_repair : ℕ → Reason → Guardian → Store → host.State → Outcome
  do_repair now reason g st s =
      let (result, s') = repair_once host st now g.last_wifi_toggle_at s in
      elim result [
        | raised e ↦ (raised e, g, st, s')
        | ok report ↦ (
          ok (repairing reason report),
          record g {
            mode = no_bootmux;
            stable_since = none;
            last_wifi_toggle_at = if report.toggled then some now else g.last_wifi_toggle_at;
          },
          st,
          s',
        )
      ]

  -- `self.heartbeat_fail_since = None` after the repair, which a raise skips.
  abbrev forget_heartbeat : Outcome → Outcome
  forget_heartbeat (ok a, g, st, s) = (ok a, record g { heartbeat_fail_since = none }, st, s)
  forget_heartbeat (raised e, g, st, s) = (raised e, g, st, s)

  -- `self.was_attached = False` after the repair.
  abbrev forget_attached : Outcome → Outcome
  forget_attached (ok a, g, st, s) = (ok a, record g { was_attached = false }, st, s)
  forget_attached (raised e, g, st, s) = (raised e, g, st, s)

  -- The branch of a proven identity.
  tick_attached : ℕ → Guardian → Store → host.State → Outcome
  unfolding do_repair
  tick_attached now g st s =
      let g1 = record g { mode = attached; was_attached = true; stable_since = none } in
      if host.heartbeat s bootmux_peer
      then (ok monitor_attached, record g1 { heartbeat_fail_since = none }, st, s)
      else let since = since_or g1.heartbeat_fail_since now in
        let g2 = record g1 { heartbeat_fail_since = some since } in
        if leb (since + g.fail_limit) now
        then forget_heartbeat (do_repair now heartbeat_loss g2 st s)
        else (ok heartbeat_failing, g2, st, s)

  -- The capture of a baseline at the end of `tick`.
  capture_tick : IdentityResult → Guardian → Store → host.State → Outcome
  capture_tick identity g st s =
      let (result, st') = write_baseline (capture_baseline host s) true st in
      if host_is_clean host identity s
      then elim result [
        | ok _ ↦ (ok baseline_captured, g, st', s)
        | raised e ↦ (raised e, g, st', s)
      ]
      else (ok stable_but_not_clean, g, st, s)

  -- The branch of a host without BOOTMUX.
  tick_idle : IdentityResult → ℕ → Guardian → Store → host.State → Outcome
  unfolding capture_tick
  tick_idle identity now g st s =
      let since = since_or g.stable_since now in
      let g' = record g { mode = no_bootmux; was_attached = false; stable_since = some since } in
      elim (existing_baseline st) [
        | raised e ↦ (raised e, g', st, s)
        | ok baseline ↦
            if is_none baseline && leb (since + g.stability) now
            then capture_tick identity g' st s
            else (ok monitoring_idle, g', st, s)
      ]

  -- The branches of an identity that is not proven.
  tick_unproven : IdentityResult → ℕ → Guardian → Store → host.State → Outcome
  unfolding tick_idle do_repair
  tick_unproven identity now g st s =
      let g' = record g { heartbeat_fail_since = none } in
      if identity.ambiguous
      then (ok audited, record g' { mode = audit_only }, st, s)
      else let stale = any via_peer (host.routes s) in
        let detached = g.was_attached && not (bootmux_usb_present (host.usb_devices s)) in
        if stale || detached
        then forget_attached (do_repair now (if stale then stale_route else usb_detached) g' st s)
        else tick_idle identity now g' st s

  -- `tick` without the report's head.
  unfoldable pub act : Guardian → Store → host.State → Outcome
  unfolding tick_attached tick_unproven
  act g st s = elim (store_valid st) [
    | some e ↦ (ok (failed_closed e), record g { mode = fail_closed }, st, s)
    | none ↦
        let now = host.now s in
        let identity = prove_identity host s in
        if identity.proven then tick_attached now g st s else tick_unproven identity now g st s
  ]

  unfoldable pub tick :
      Guardian → Store → host.State → Result TickReport × Guardian × Store × host.State
  tick g st s = let (r, g', st', s') = act g st s in (stamp (host.now s) g.mode r, g', st', s')

  -- `run_daemon` over a schedule: what the rest of the world does to the host before each tick.
  -- The loop ends with the schedule, or with a tick that raises.
  unfoldable pub run_daemon :
      List (host.State → host.State)
      → Guardian
      → Store
      → host.State
      → List TickReport × Option Raised × Guardian × Store × host.State
  run_daemon [] g st s = ([], none, g, st, s)
  run_daemon (world ∷ rest) g st s =
      let (r, g', st', s') = tick g st (world s) in
      elim r [
        | raised e ↦ ([], some e, g', st', s')
        | ok report ↦
            let (reports, e, g'', st'', s'') = run_daemon rest g' st' s' in
            (report ∷ reports, e, g'', st'', s'')
      ]
