-- ===== src/Ui/Window/Events.antt =====
-- `_on_daemon_event`: what the main window does with an event or a reply of the daemon.
use usb_defense_system.Prelude.{suc, true, false, String, ◌++◌, if◌then◌else◌, Text, codes}
use usb_defense_system.Json.{Json, arr, obj, nil, lit, Fields, end, truthy, or_else}
use usb_defense_system.Exec.{
  Result, ok, err, Exec, pure, lift, modify, type_error, then_do, ◌>>=◌, ◌>>◌,
}
use usb_defense_system.Platform.{Platform}
use usb_defense_system.Daemon.Commands.{get, get_or}
use usb_defense_system.Ui.Display.{Desktop, shown, json_get}
use usb_defense_system.Ui.Overlay.{record_intrusion, show_for, hide_overlay, show_unlock_error}
use usb_defense_system.Ui.Dashboard.{set_status_secure, set_status_alert, set_status_locked}
use usb_defense_system.Ui.WhitelistScreen
use usb_defense_system.Ui.LogScreen
use usb_defense_system.Ui.LogScreen.{is_text}
use usb_defense_system.Ui.EventKind.{
  EventKind, lockdown_enter, lockdown_clear, intrusion_attempt, status, whitelist_list,
  whitelist_changed, add_whitelist_entry, remove_whitelist_entry, unlock_with_password,
  unlock_with_seed, unauthorized_insert, authorized_insert, unknown, kind_of,
}
use usb_defense_system.Ui.Window.Rehydration.{recent, rehydrate_intrusion_timeline}
use usb_defense_system.Ui.Window.{
  MainWindow, Screen, log_screen, on_overlay, run_overlay, on_dashboard, show_message, tell,
  request_whitelist, lockout_message,
}

-- `self.show()`, `raise_` and `activateWindow`; and `self.hide()`
abbrev pub show_window : MainWindow → MainWindow
show_window w = record w { visible = true }

abbrev pub hide_window : MainWindow → MainWindow
hide_window w = record w { visible = false }

module _ (P : Platform) (D : Desktop) where
  -- `f"{device.get('manufacturer','?')} {device.get('product','?')}"`
  abbrev pub describe : Json → Result Text
  describe device = then_do (json_get "manufacturer" (lit "?") device) λ manufacturer.
      then_do (json_get "product" (lit "?") device)
        λ product. ok (shown P manufacturer ++ (codes " " ++ shown P product))

  -- `now` is `datetime.now()` as `%H:%M:%S`.
  module _ (now : Text) where
    abbrev pub note : Text → MainWindow → MainWindow
    note text w = record w { last_event_text = now ++ text }

    abbrev pub announce_locked : Json → Exec MainWindow (Unit {0})
    announce_locked offender = do
      desc ← lift (describe offender)
      modify (on_dashboard (set_status_locked desc))
      modify (note (codes " LOCKDOWN — " ++ desc))

    abbrev on_enter : Fields → Exec MainWindow (Unit {0})
    on_enter event = do
      let offender = get_or "offender" (obj end) event
      modify hide_window
      run_overlay (show_for P D offender (get "started_at" event))
      announce_locked offender

    abbrev on_clear : Fields → MainWindow → MainWindow
    on_clear event w =
        let w' =
          note (codes " unlocked")
            (on_dashboard set_status_secure (show_window (on_overlay hide_overlay w))) in
        if truthy (get "warn_regenerate_seed" event)
        then record w' { warnings = suc w'.warnings }
        else w'

    abbrev pub mark_locked : Json → Exec MainWindow (Unit {0})
    mark_locked offender = do
      desc ← lift (describe offender)
      modify (on_dashboard (set_status_locked desc))

    abbrev pub on_status_locked : Fields → Exec MainWindow (Unit {0})
    on_status_locked event = do
      let offender = or_else (get "offender" event) (obj end)
      modify hide_window
      run_overlay (show_for P D offender (get "started_at" event))
      rehydrate_intrusion_timeline P D (get "started_at" event)
      mark_locked offender

    abbrev pub on_status_unlocked : MainWindow → MainWindow
    on_status_unlocked w =
        if w.overlay.visible
        then on_dashboard set_status_secure (show_window (on_overlay hide_overlay w))
        else w

    abbrev pub on_integrity : Fields → MainWindow → MainWindow
    on_integrity event w =
        if truthy (get "integrity_failed" event)
        then show_message (codes "Whitelist tamper detected — daemon refusing to load entries") w
        else w

    abbrev on_status : Fields → Exec MainWindow (Unit {0})
    on_status event = do
      if truthy (get "locked" event) then on_status_locked event else modify on_status_unlocked
      modify (on_integrity event)

    abbrev on_whitelist_list : Fields → Exec MainWindow (Unit {0})
    on_whitelist_list event w =
        let cache = or_else (get "entries" event) (arr nil) in
        let r = WhitelistScreen.refresh P cache w.whitelist in
        (r.0, record w { whitelist_cache = cache; whitelist = r.1 })

    abbrev on_added : Fields → MainWindow → MainWindow
    on_added event w =
        let error = or_else (get "error" event) (lit "unknown") in
        if truthy (get "ok" event)
        then tell (codes "Device added to whitelist.") false w
        else if is_text "auth_locked_out" error
        then tell (lockout_message P D event) true w
        else if is_text "unauthorized" error
        then tell (codes "Wrong admin password.") true w
        else tell (codes "Add failed: " ++ shown P error) true w

    abbrev on_removed : Fields → MainWindow → MainWindow
    on_removed event w =
        let error = or_else (get "error" event) (lit "") in
        if truthy (get "ok" event)
        then tell (codes "Device removed.") false w
        else if is_text "auth_locked_out" error
        then tell (lockout_message P D event) true w
        else if is_text "unauthorized" error
        then tell (codes "Wrong admin password.") true w
        else w

    abbrev on_unlock_reply : String → Fields → MainWindow → MainWindow
    on_unlock_reply message event w =
        if truthy (get "ok" event)
        then w
        else if is_text "auth_locked_out" (get "error" event)
        then on_overlay (show_unlock_error (lockout_message P D event)) w
        else on_overlay (show_unlock_error (codes message)) w

    abbrev on_unauthorized : Fields → Exec MainWindow (Unit {0})
    on_unauthorized event = do
      desc ← lift (describe (get_or "device" (obj end) event))
      modify (on_dashboard (set_status_alert desc))
      modify (note (codes " BLOCKED — " ++ desc))

    abbrev on_authorized : Fields → MainWindow → MainWindow
    on_authorized event = note (codes " allowed: " ++ shown P (get_or "label" (lit "?") event))

    -- The branches of `_on_daemon_event`.
    unfoldable pub on_event_of : EventKind → Fields → Exec MainWindow (Unit {0})
    unfolding rehydrate_intrusion_timeline request_whitelist lockout_message
    on_event_of lockdown_enter event = on_enter event
    on_event_of lockdown_clear event = modify (on_clear event)
    on_event_of intrusion_attempt event = run_overlay (
        record_intrusion P D (get_or "kind" (lit "UNKNOWN") event) (get_or "detail" (lit "") event)
          (get_or "ts" (lit "") event))
    on_event_of status event = on_status event
    on_event_of whitelist_list event = on_whitelist_list event
    on_event_of whitelist_changed event = modify request_whitelist
    on_event_of add_whitelist_entry event = modify (on_added event)
    on_event_of remove_whitelist_entry event = modify (on_removed event)
    on_event_of unlock_with_password event =
        modify (on_unlock_reply "Wrong password — try again or use the paper code." event)
    on_event_of unlock_with_seed event =
        modify (on_unlock_reply "Code not accepted. Check for typos (O/0, I/L/1, U/V)." event)
    on_event_of unauthorized_insert event = on_unauthorized event
    on_event_of authorized_insert event = modify (on_authorized event)
    on_event_of unknown event = pure tt

    -- `if self.stack.currentWidget() is self.log_screen: self.log_screen.refresh()`
    abbrev pub refresh_log : Screen → Exec MainWindow (Unit {0})
    refresh_log log_screen w =
        let r = LogScreen.refresh P D (recent P D 200 w) w.log_table in
        (r.0, record w { log_table = r.1 })
    refresh_log _ w = (ok tt, w)

    -- `_on_daemon_event`
    unfoldable pub on_daemon_event : Fields → Exec MainWindow (Unit {0})
    unfolding on_event_of kind_of
    on_daemon_event event = do
      on_event_of (kind_of (get "type" event)) event
      λ w. refresh_log w.screen w

    -- The slot takes objects only: the signal's `emit` raises on another value.
    unfoldable pub on_event : Json → Exec MainWindow (Unit {0})
    unfolding on_daemon_event
    on_event (obj fields) w = on_daemon_event fields w
    on_event _ w = (err type_error, w)
