-- ===== src/Shield/Commands/Lifecycle.antt =====
-- The life cycle of the shield, as the edges that each command has between the statuses.
pub mod Edges
pub mod Execute
use bootmux.Base.{
  ◌≡◌, refl, sym, ap, subst, ◌∙◌, ◌≢◌, ◌⊎◌, inl, inr, ℕ, zero, suc, ℤ, Bool, true, false, not,
  Option, none, some, List, String, arith, ◌&&◌, ◌==◌, Bool-cases, if_case, if◌then◌else◌,
}
use bootmux.Shield.Answers.{
  Answer, already_armed, red_no_wifi_device, armed_as, Status, uninstalled, restored,
  armed_temporary, installed_disarmed, status_of,
}
use bootmux.Shield.Arm.{clamp_ttl, arm_new, arm_session}
use bootmux.Shield.Commands.{
  cmd_arm, cmd_renew, cmd_close_session, cmd_status, cmd_recover_now, cmd_audit, cmd_uninstall,
  renew_with, close_with, arm_with, recover_with, recover_from, recover, renew, answer_close,
}
use bootmux.Shield.Daemon.{cmd_daemon, daemon_with, daemon_loop, loop_with, daemon_rounds}
use bootmux.Shield.Baseline.{Baseline, given, capture_baseline}
use bootmux.Shield.Daemon.Watch.{SameButSeen, Holds, Ended, daemon_rounds-Ended}
use bootmux.Shield.Journal.{open_journal}
use bootmux.Shield.Host.{Host}
use bootmux.Shield.Session.{closed, close_session}
use bootmux.Shield.Session.Close.{close_session_cases, Refuses, SavesClosed, present}
use bootmux.Shield.World.{
  ShieldState, StateFile, stored, missing, corrupt, Disk, World, load_state, loaded, on_mac, log,
}

pub data Command : Type 0 where
  arm : ℤ → Command
  renew_session : String → ℤ → Command
  close : Bool → Command
  show_status recover_now audit : Command
  daemon : ℕ → Command
  uninstall : Bool → String → Command

abbrev pub is_uninstall : Command → Bool
is_uninstall (uninstall purge path) = true
is_uninstall _ = false

-- The edges that a command has.
pub data Edge : Command → Status → Status → Type 0 where
  stays : {c : Command} {a : Status} → is_uninstall c ≡ false → Edge c a a
  arms : {ttl : ℤ} {a : Status} → a ≢ armed_temporary → Edge (arm ttl) a armed_temporary
  closes : {force : Bool} → Edge (close force) armed_temporary restored
  closes_itself : {rounds : ℕ} → Edge (daemon rounds) armed_temporary restored
  removes : {purge : Bool} {path : String} {a : Status} → Edge (uninstall purge path) a uninstalled

pub disarmed_status : (s : ShieldState) → s.armed ≡ false → status_of (stored s) ≢ armed_temporary
disarmed_status s off e = ground arith

pub not_armed_yet : (f : StateFile) → loaded f ≡ none → status_of f ≢ armed_temporary
not_armed_yet missing h e = cc
not_armed_yet corrupt h e = cc
not_armed_yet (stored s) h e = cc

-- An edge of a command that closes an armed state.
pub closing-Edge :
    {c : Command} (s : ShieldState)
    → is_uninstall c ≡ false
    → Edge c armed_temporary restored
    → s.armed ≡ true
    → Edge c (status_of (stored s)) restored
closing-Edge {c} s h edge on =
    if_case (λ a. Edge c a restored) s.session_closed restored
      (if s.armed then armed_temporary else installed_disarmed) (λ _. stays h)
      (λ _.
        if_case (λ a. Edge c a restored) s.armed armed_temporary installed_disarmed (λ _. edge)
          (λ off. cc))

pub seen_status :
    (s t : ShieldState) → SameButSeen s t → status_of (stored t) ≡ status_of (stored s)
seen_status s t h = ap (λ x. status_of (stored x)) h

module _ (host : Host) where
  abbrev pub status : World host → Status
  status w = status_of w.disk.state_file

  -- An edge from the status of a state file to that of a world.
  abbrev pub To : Command → StateFile → World host → Type 0
  To c f w = Edge c (status_of f) (status w)

  pub stays_at :
      {c : Command} {f : StateFile} (w : World host)
      → is_uninstall c ≡ false
      → w.disk.state_file ≡ f
      → To c f w
  stays_at {c} {f} w h same = subst (λ g. Edge c (status_of f) (status_of g)) (sym same) (stays h)
