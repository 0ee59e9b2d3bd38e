-- ===== src/Ui/Window/Offline.antt =====
-- The main window while the daemon is gone, and after it has come back.
use usb_defense_system.Prelude.{◌≡◌, refl, ◌∙◌, Bool, false, Text, arith}
use usb_defense_system.Json.{Fields, truthy, lookup}
use usb_defense_system.Exec.{Result, ok, err, continue}
use usb_defense_system.Platform.{Platform}
use usb_defense_system.Daemon.State.{Daemon, Moment}
use usb_defense_system.Daemon.Commands.{get, status_fields, status_reply}
use usb_defense_system.Ui.Display.{Desktop}
use usb_defense_system.Ui.Overlay.{hide_overlay}
use usb_defense_system.Ui.EventKind.{status, kind_of}
use usb_defense_system.Ui.Window.{
  Screen, dashboard_screen, whitelist_screen, log_screen, settings_screen, MainWindow,
  request_whitelist, connect_to_daemon, refresh_dashboard,
}
use usb_defense_system.Ui.Window.Events.{on_event, on_event_of, on_daemon_event, refresh_log}

module _ (P : Platform) (D : Desktop) where
  refresh_dashboard-hides :
      (listening : Bool) (w : MainWindow)
      → w.ipc.connected ≡ false
      → let w' = (refresh_dashboard P listening w).1 in
        (w'.overlay.visible ≡ false) × (w'.visible ≡ w.visible)
  unfolding refresh_dashboard hide_overlay connect_to_daemon request_whitelist
  refresh_dashboard-hides listening w h = ground (arith, h)

  refresh_log-shown :
      (now : Text) (screen : Screen) (w : MainWindow)
      → let w' = (refresh_log P D now screen w).1 in
        (w'.overlay.visible ≡ w.overlay.visible) × (w'.visible ≡ w.visible)
  refresh_log-shown now log_screen w = (refl, refl)
  refresh_log-shown now dashboard_screen w = (refl, refl)
  refresh_log-shown now whitelist_screen w = (refl, refl)
  refresh_log-shown now settings_screen w = (refl, refl)

  abbrev IsShut : MainWindow → MainWindow → Type 0
  IsShut w w' = (w'.overlay.visible ≡ false) × (w'.visible ≡ w.visible)

  status-IsShut :
      (now : Text) (event : Fields) (w : MainWindow)
      → truthy (get "locked" event) ≡ false
      → w.overlay.visible ≡ false
      → IsShut w (on_event_of P D now status event w).1
  unfolding on_event_of
  status-IsShut now event w l v = ground (arith, l, v)

  refreshed-IsShut :
      (now : Text) (w : MainWindow) (r : Result (Unit {0}) × MainWindow)
      → IsShut w r.1
      → IsShut w (continue r.0 (λ _ w'. refresh_log P D now w'.screen w') r.1).1
  refreshed-IsShut now w (ok _, w') (v, s) =
      let (kept, same) = refresh_log-shown now w'.screen w' in (kept ∙ v, same ∙ s)
  refreshed-IsShut now w (err e, w') h = h

  on_status-unlocked :
      (now : Text) (t : Moment) (d : Daemon) (w : MainWindow)
      → d.locked ≡ false
      → w.overlay.visible ≡ false
      → IsShut w (on_event P D now (status_reply t d) w).1
  unfolding on_event on_daemon_event status_reply kind_of lookup
  on_status-unlocked now t d w l v =
      refreshed-IsShut now w (on_event_of P D now status (status_fields t d) w)
        (status-IsShut now (status_fields t d) w l v)

  -- A main window that is hidden, as it is during a lockdown, and that finds its connection gone at a
  -- tick of the timer, takes the overlay away without showing itself; and it stays hidden, with no
  -- overlay, when it has connected again and the daemon answers that it is not locked.
  pub refresh_dashboard-hidden :
      (listening : Bool) (now : Text) (t : Moment) (d : Daemon) (w : MainWindow)
      → w.ipc.connected ≡ false
      → w.visible ≡ false
      → d.locked ≡ false
      → let w' = (refresh_dashboard P listening w).1 in
        let w'' = (on_event P D now (status_reply t d) w').1 in
        (w'.overlay.visible ≡ false)
        × (w'.visible ≡ false)
        × (w''.overlay.visible ≡ false)
        × (w''.visible ≡ false)
  refresh_dashboard-hidden listening now t d w h v l =
      let w' = (refresh_dashboard P listening w).1 in
      let (gone, same) = refresh_dashboard-hides listening w h in
      let (still, kept) = on_status-unlocked now t d w' l gone in
      (gone, same ∙ v, still, kept ∙ (same ∙ v))
