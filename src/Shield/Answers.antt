-- ===== src/Shield/Answers.antt =====
-- scripts/macos/bootmux-attach-shield.py: what the commands print, as data.
use bootmux.Base.{ℕ, String, if◌then◌else◌}
use bootmux.Shield.Recovery.{RecoveryResult}
use bootmux.Shield.Session.{Classification}
use bootmux.Shield.World.{StateFile, missing, corrupt, stored}

pub data Answer : Type 0 where
  already_armed red_no_wifi_device : Answer
  armed_as : String → String → Answer
  not_armed session_mismatch not_installed already_closed : Answer
  renewed : ℕ → Answer
  close_result : Classification → Answer
  no_baseline : Answer
  recovery : RecoveryResult → Answer
  uninstall_ok : Answer

-- What `cmd_status` prints.
pub data Status : Type 0 where
  uninstalled restored armed_temporary installed_disarmed : Status

abbrev pub status_of : StateFile → Status
status_of missing = uninstalled
status_of corrupt = uninstalled
status_of (stored s) =
    if s.session_closed then restored else if s.armed then armed_temporary else installed_disarmed
