-- ===== src/Ui/Window/Opening.antt =====
-- `MainWindow.__init__`, and the signals that it connects to the window's methods.
use usb_defense_system.Prelude.{Bool, true, false, Option, none, some, List, [], Text, codes}
use usb_defense_system.Json.{Json, arr, nil, Fields, field, end}
use usb_defense_system.Exec.{Result, ok, err, then_do}
use usb_defense_system.Platform.{Platform}
use usb_defense_system.Files.{FileSystem}
use usb_defense_system.Config.{Config, load_config}
use usb_defense_system.EventLog.{read_recent}
use usb_defense_system.Ipc.Client.{Client}
use usb_defense_system.Ui.Display.{Desktop}
use usb_defense_system.Ui.Overlay.{Answer, new_overlay, on_unlock_clicked}
use usb_defense_system.Ui.Dashboard.{new_dashboard}
use usb_defense_system.Ui.WhitelistScreen.{Form, Row, on_add, on_remove}
use usb_defense_system.Ui.LogScreen
use usb_defense_system.Ui.SettingsScreen.{SettingsScreen, open_settings}
use usb_defense_system.Ui.Window.{
  MainWindow, dashboard_screen, connect_to_daemon, submit_add_whitelist, submit_remove_whitelist,
  submit_unlock_password, submit_unlock_seed,
}

-- `config.__dict__`
abbrev config_dict : Config → Fields
config_dict c = field "lockdown_grace_period_sec" c.lockdown_grace_period_sec (
    field "lockdown_screen_lock" c.lockdown_screen_lock (
      field "require_unlock_key" c.require_unlock_key (
        field "daemon_log_level" c.daemon_log_level (
          field "notify_on_authorized" c.notify_on_authorized (
            field "auto_block_unknown" c.auto_block_unknown (
              field "audit_journald" c.audit_journald (
                field "audit_flat_file" c.audit_flat_file
                  (field "simulator_enabled" c.simulator_enabled end))))))))

-- `IPCClient.__init__`; `link` says whether what it will send arrives.
abbrev pub new_client : Bool → Client
new_client link = record {
  connected = false;
  stopped = false;
  receiving = false;
  link = link;
  sent = [];
}

abbrev recent_events : Platform → Desktop → FileSystem → List Json
recent_events P D fs = elim D.log_readable [ true ↦ read_recent P 200 fs | false ↦ [] ]

-- The window before it connects; the screens are made in this order, and each may raise.
abbrev pub built : FileSystem → Client → SettingsScreen → List (List Text) → MainWindow
built fs ipc settings table = record {
  visible = false;
  screen = dashboard_screen;
  overlay = new_overlay;
  dashboard = new_dashboard;
  whitelist_cache = arr nil;
  whitelist = record { rows = []; statuses = [] };
  log_table = table;
  settings = settings;
  status_bar = codes "Connecting to daemon…";
  last_event_text = codes "—";
  warnings = 0;
  ipc = ipc;
  files = fs;
}

abbrev with_settings :
    FileSystem → Client → Bool → Config → Result (Unit {0}) × List (List Text) → Result MainWindow
with_settings fs ipc listening c (ok _, table) =
    then_do (open_settings (config_dict c))
      λ settings. ok (connect_to_daemon listening (built fs ipc settings table))
with_settings fs ipc listening c (err e, table) = err e

-- `__init__`, up to the timer of `_refresh_dashboard`
unfoldable pub open_window : Platform → Desktop → FileSystem → Client → Bool → Result MainWindow
open_window P D fs ipc listening =
    then_do (load_config P fs)
      λ c. with_settings fs ipc listening c (LogScreen.refresh P D (recent_events P D fs) [])

-- `unlock_with_password_requested.connect(self._submit_unlock_password)`, and the same for the code
abbrev submit_if : (Text → MainWindow → MainWindow) → Option Text → MainWindow → MainWindow
submit_if submit none w = w
submit_if submit (some text) w = submit text w

unfoldable pub password_clicked : Answer → MainWindow → MainWindow
unfolding on_unlock_clicked submit_unlock_password
password_clicked a w =
    let (text, overlay) = on_unlock_clicked a w.overlay in
    submit_if submit_unlock_password text (record w { overlay = overlay })

unfoldable pub seed_clicked : Answer → MainWindow → MainWindow
unfolding on_unlock_clicked submit_unlock_seed
seed_clicked a w =
    let (text, overlay) = on_unlock_clicked a w.overlay in
    submit_if submit_unlock_seed text (record w { overlay = overlay })

abbrev add_if : Option (Fields × Text) → MainWindow → MainWindow
add_if none w = w
add_if (some (entry, password)) w = submit_add_whitelist entry password w

-- `submit_add=self._submit_add_whitelist` and `submit_remove=self._submit_remove_whitelist`
unfoldable pub add_clicked : Option Form → Answer → MainWindow → MainWindow
unfolding on_add submit_add_whitelist
add_clicked form a w = add_if (on_add form a) w

abbrev remove_if : Option (Json × Text) → MainWindow → MainWindow
remove_if none w = w
remove_if (some (entry_id, password)) w = submit_remove_whitelist entry_id password w

unfoldable pub remove_clicked : Option Row → Bool → Answer → MainWindow → MainWindow
unfolding on_remove submit_remove_whitelist
remove_clicked row confirmed a w = remove_if (on_remove row confirmed a) w
