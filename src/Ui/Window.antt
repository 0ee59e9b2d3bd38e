-- ===== src/Ui/Window.antt =====
-- usbguard_defense/ui/main.py: the main window, its state and its calls of the daemon.
pub mod Rehydration
pub mod Events
pub mod Following
pub mod Agreement
pub mod Joining
pub mod Adding
pub mod Opening
pub mod Offline
use usb_defense_system.Prelude.{
  ℕ, suc, Bool, true, false, String, Option, none, some, List, [], ◌∷◌, ◌++◌, if◌then◌else◌, Text,
  codes, ltb, ◌==◌, length, leb,
}
use usb_defense_system.Json.{
  Json, Items, ℤ, pos, negsuc, null, bool, int, num, str, arr, obj, nil, cons, lit, Fields, field,
  end, update, truthy, or_else, field_count,
}
use usb_defense_system.Exec.{
  Result, ok, err, Exec, pure, lift, modify, gets, type_error, os_error, is_os_error, ◌>>=◌, ◌>>◌,
}
use usb_defense_system.Platform.{Platform}
use usb_defense_system.Files.{FileSystem, config_path, write, must}
use usb_defense_system.EventLog.{read_recent}
use usb_defense_system.Ipc.Client.{Client, connect, is_connected, send_command}
use usb_defense_system.Daemon.Commands.{get, as_object}
use usb_defense_system.Ui.Display.{Desktop, shown}
use usb_defense_system.Ui.Overlay.{Overlay, hide_overlay, show_unlock_error}
use usb_defense_system.Ui.Dashboard.{Dashboard, set_status_secure, update_stats}
use usb_defense_system.Ui.WhitelistScreen
use usb_defense_system.Ui.WhitelistScreen.{WhitelistScreen, show_status}
use usb_defense_system.Ui.SettingsScreen.{SettingsScreen, save}

pub data Screen : Type 0 where
  dashboard_screen whitelist_screen log_screen settings_screen : Screen

-- `shown` is whether the window itself is shown; `warnings` counts the boxes that warn of a consumed
-- recovery code. `files` are those that the process of the user can reach.
pub record MainWindow : Type 0 where
  pub visible : Bool
  pub screen : Screen
  pub overlay : Overlay
  pub dashboard : Dashboard
  pub whitelist_cache : Json
  pub whitelist : WhitelistScreen
  pub log_table : List (List Text)
  pub settings : SettingsScreen
  pub status_bar : Text
  pub last_event_text : Text
  pub warnings : ℕ
  pub ipc : Client
  pub files : FileSystem

abbrev pub on_overlay : (Overlay → Overlay) → MainWindow → MainWindow
on_overlay f w = record w { overlay = f w.overlay }

abbrev pub run_overlay : Exec Overlay (Unit {0}) → Exec MainWindow (Unit {0})
run_overlay m w = let r = m w.overlay in (r.0, record w { overlay = r.1 })

abbrev pub on_dashboard : (Dashboard → Dashboard) → MainWindow → MainWindow
on_dashboard f w = record w { dashboard = f w.dashboard }

abbrev pub show_message : Text → MainWindow → MainWindow
show_message text w = record w { status_bar = text }

-- `self.whitelist_screen.show_status(message, error)`
abbrev pub tell : Text → Bool → MainWindow → MainWindow
tell message error w = record w { whitelist = show_status message error w.whitelist }

abbrev pub send : Fields → MainWindow → MainWindow
send msg w = record w { ipc = send_command (obj msg) w.ipc }

-- `_request_whitelist`
unfoldable pub request_whitelist : MainWindow → MainWindow
request_whitelist w =
    if is_connected w.ipc then send (field "cmd" (lit "list_whitelist") end) w else w

abbrev connected_or_not : Bool → MainWindow → MainWindow
connected_or_not true w =
    request_whitelist
      (send (field "cmd" (lit "status") end) (show_message (codes "Connected to daemon") w))
connected_or_not false w =
    show_message (codes "Daemon offline — whitelist edits are disabled until the daemon is back") w

-- `_connect_to_daemon`; `listening` says whether a daemon takes connections.
unfoldable pub connect_to_daemon : Bool → MainWindow → MainWindow
unfolding connect request_whitelist
connect_to_daemon listening w =
    let (joined, ipc) = connect listening w.ipc in connected_or_not joined (record w { ipc = ipc })

-- `_show`
abbrev request_if : Screen → MainWindow → MainWindow
request_if whitelist_screen w = request_whitelist w
request_if _ w = w

unfoldable pub show_screen : Screen → MainWindow → MainWindow
unfolding request_whitelist
show_screen screen w = request_if screen (record w { screen = screen })

abbrev item_count : Items → ℕ
item_count nil = 0
item_count (cons x xs) = suc (item_count xs)

-- `len(value)`
abbrev py_len : Json → Result ℕ
py_len (arr xs) = ok (item_count xs)
py_len (str s) = ok (length s)
py_len (obj fs) = ok (field_count fs)
py_len _ = err type_error

-- What `_refresh_dashboard` does where the daemon is gone.
abbrev pub drop_overlay : MainWindow → MainWindow
drop_overlay w =
    if w.overlay.visible then on_dashboard set_status_secure (on_overlay hide_overlay w) else w

abbrev pub reconnect : Bool → MainWindow → MainWindow
reconnect listening w =
    if is_connected w.ipc then w else connect_to_daemon listening (drop_overlay w)

-- `_refresh_dashboard`, which the timer calls every two seconds
unfoldable pub refresh_dashboard : Platform → Bool → Exec MainWindow (Unit {0})
unfolding connect_to_daemon hide_overlay field_count
refresh_dashboard P listening = do
  modify (reconnect listening)
  cache ← gets (λ w. w.whitelist_cache)
  count ← lift (py_len cache)
  modify (λ w. on_dashboard (update_stats P count (is_connected w.ipc) w.last_event_text) w)

-- `_submit_add_whitelist`
unfoldable pub submit_add_whitelist : Fields → Text → MainWindow → MainWindow
unfolding update
submit_add_whitelist entry password w =
    if is_connected w.ipc
    then send
        (field "cmd" (lit "add_whitelist_entry") (
          field "password" (str password)
            (field "entry" (obj (update entry (field "added_by" (lit "admin") end))) end)))
        w
    else tell (codes "Daemon is offline — cannot add.") true w

-- `_submit_remove_whitelist`
unfoldable pub submit_remove_whitelist : Json → Text → MainWindow → MainWindow
submit_remove_whitelist entry_id password w =
    if is_connected w.ipc
    then send
        (field "cmd" (lit "remove_whitelist_entry")
          (field "password" (str password) (field "entry_id" entry_id end)))
        w
    else tell (codes "Daemon is offline — cannot remove.") true w

-- `_submit_unlock_password`
unfoldable pub submit_unlock_password : Text → MainWindow → MainWindow
submit_unlock_password password w =
    if is_connected w.ipc
    then send (field "cmd" (lit "unlock_with_password") (field "password" (str password) end)) w
    else on_overlay (show_unlock_error (codes "Daemon offline.")) w

-- `_submit_unlock_seed`
unfoldable pub submit_unlock_seed : Text → MainWindow → MainWindow
submit_unlock_seed code w =
    if is_connected w.ipc
    then send (field "cmd" (lit "unlock_with_seed") (field "code" (str code) end)) w
    else on_overlay (show_unlock_error (codes "Daemon offline.")) w

module _ (P : Platform) (D : Desktop) where
  abbrev save_message : Result (Unit {0}) → Text
  save_message (ok _) = codes "Settings saved"
  save_message (err e) = codes "Save failed: " ++ P.error_text e

  -- `_save_settings`; what writing raises is an `OSError`.
  unfoldable pub save_settings : Fields → MainWindow → MainWindow
  save_settings config w =
      let r = must P (write config_path (D.yaml_dump (obj config))) w.files in
      show_message (save_message r.0) (record w { files = r.1 })

  -- A click on `Save Settings`.
  unfoldable pub save_clicked : MainWindow → MainWindow
  unfolding save_settings save
  save_clicked w =
      let (form, config) = save w.settings in save_settings config (record w { settings = form })

  abbrev seconds_of : Json → ℤ
  seconds_of (bool true) = pos 1
  seconds_of (int n) = n
  seconds_of (str s) = elim (D.int_of_float s) [ none ↦ pos 0 | some n ↦ n ]
  seconds_of _ = pos 0

  abbrev wait_text : ℤ → Text
  wait_text (negsuc n) = codes "Too many failed attempts — try again shortly."
  wait_text (pos n) =
      if n == 0
      then codes "Too many failed attempts — try again shortly."
      else codes "Too many failed attempts. Wait "
        ++ (P.show (num n)
            ++ (codes " second"
                ++ ((if n == 1 then [] else codes "s") ++ codes " before trying again.")))

  -- `_lockout_message`
  unfoldable pub lockout_message : Fields → Text
  lockout_message event = wait_text (
      seconds_of
        (or_else (get "retry_after_seconds" event) (or_else (get "retry_after_sec" event) (num 0))))
