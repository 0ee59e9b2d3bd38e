-- ===== src/Ui/Dashboard.antt =====
-- usbguard_defense/ui/dashboard.py: the labels of the main status screen.
use usb_defense_system.Prelude.{ℕ, Bool, Text, codes, ◌++◌, if◌then◌else◌}
use usb_defense_system.Json.{num}
use usb_defense_system.Platform.{Platform}

-- `status_name` is the object name of the status label, by which its style is chosen.
pub record Dashboard : Type 0 where
  pub status_label : Text
  pub status_name : Text
  pub status_detail : Text
  pub whitelist_count_label : Text
  pub daemon_state_label : Text
  pub last_event_label : Text

unfoldable pub set_status_secure : Dashboard → Dashboard
set_status_secure b = record b {
  status_label = codes "● SYSTEM SECURE";
  status_name = codes "statusOK";
  status_detail = codes "All connected USB devices are authorized.";
}

unfoldable pub set_status_alert : Text → Dashboard → Dashboard
set_status_alert offender_desc b = record b {
  status_label = codes "● UNAUTHORIZED USB BLOCKED";
  status_name = codes "statusAlert";
  status_detail = codes "Last offender: " ++ offender_desc;
}

unfoldable pub set_status_locked : Text → Dashboard → Dashboard
set_status_locked offender_desc b = record b {
  status_label = codes "● SYSTEM LOCKED";
  status_name = codes "statusAlert";
  status_detail = codes "Triggered by: " ++ offender_desc;
}

unfoldable pub update_stats : Platform → ℕ → Bool → Text → Dashboard → Dashboard
update_stats P whitelist_count daemon_running last_event b = record b {
  whitelist_count_label = codes "Whitelisted: " ++ P.show (num whitelist_count);
  daemon_state_label =
      codes "Daemon: " ++ (if daemon_running then codes "running" else codes "stopped");
  last_event_label = codes "Last event: " ++ last_event;
}

-- The labels that `_build` makes, and `__init__`.
abbrev pub new_dashboard : Dashboard
new_dashboard = set_status_secure (record {
  status_label = codes "LOADING…";
  status_name = codes "statusOK";
  status_detail = codes "Connecting to daemon…";
  whitelist_count_label = codes "Whitelisted: --";
  daemon_state_label = codes "Daemon: --";
  last_event_label = codes "Last event: --";
})
