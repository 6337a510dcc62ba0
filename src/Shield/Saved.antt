-- ===== src/Shield/Saved.antt =====
-- The files that only `save_state`, `cmd_arm` and `cmd_uninstall` write, and that the rest of the
-- shield leaves as they are.
pub mod Setup
pub mod Repair
pub mod Close
use bootmux.Base.{◌≡◌, refl, Bool, true, false, if◌then◌else◌, List, String}
use bootmux.Shield.Host.{Host, when}
use bootmux.Shield.World.{StateFile, Fingerprint, Evidence, Disk, World, Shield}

-- All but the journals and the logs.
abbrev pub saved :
    Disk → StateFile × List (String × Fingerprint) × List (String × Evidence) × Bool × Bool
saved d = (d.state_file, d.first_prints, d.evidence, d.plist, d.installed)

module _ {host : Host} where
  -- The world `v` has the files of the world `w`.
  abbrev pub Keeps : World host → World host → Type 0
  Keeps v w = saved v.disk ≡ saved w.disk

  -- Of two outcomes, the one that a test chooses.
  pub if_Keeps :
      {A : Type 0} (w : World host) (test : Bool) (x y : A × World host)
      → Keeps x.1 w
      → Keeps y.1 w
      → Keeps (if test then x else y).1 w
  if_Keeps w true x y p q = p
  if_Keeps w false x y p q = q

  pub when-Keeps :
      (test : Bool) (m : Shield host (Unit {0})) (w : World host)
      → Keeps (m w).1 w
      → Keeps (when test m w).1 w
  unfolding when
  when-Keeps true m w p = p
  when-Keeps false m w p = refl
