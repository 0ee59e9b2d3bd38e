-- ===== src/Ui/Window/Following.antt =====
-- The overlay over the events that the daemon broadcasts.
use usb_defense_system.Prelude.{
  ◌≡◌, refl, ap, ◌∙◌, Bool, true, false, codes, ◌||◌, List, [], ◌∷◌, ◌++◌, Text, arith,
  if◌then◌else◌,
}
use usb_defense_system.Json.{
  Json, null, bool, int, str, arr, lit, obj, Fields, end, truthy, or_else,
}
use usb_defense_system.Exec.{Result, ok, err, Exec, continue, modify, ◌>>=◌, ◌>>◌}
use usb_defense_system.Platform.{Platform}
use usb_defense_system.Daemon.Commands.{get, get_or}
use usb_defense_system.Ui.Display.{Desktop}
use usb_defense_system.Ui.EventKind.{
  EventKind, lockdown_enter, lockdown_clear, intrusion_attempt, status, whitelist_list,
  whitelist_changed, add_whitelist_entry, remove_whitelist_entry, unlock_with_password,
  unlock_with_seed, unauthorized_insert, authorized_insert, unknown, kind_of,
}
use usb_defense_system.Daemon.Broadcasts.{can_show, lock_of, lock_after, told}
use usb_defense_system.Ui.Overlay.{Overlay, show_for, hide_overlay, show_unlock_error}
use usb_defense_system.Ui.Dashboard.{set_status_locked, set_status_alert}
use usb_defense_system.Ipc.Client.Receiving.{handle_all}
use usb_defense_system.Ui.Window.{
  MainWindow, Screen, dashboard_screen, whitelist_screen, log_screen, settings_screen, on_dashboard,
  run_overlay, request_whitelist,
}
use usb_defense_system.Ui.Overlay.Visibility.{show_for-visible, record_intrusion-visible}
use usb_defense_system.Ui.Window.Rehydration.{
  recent, replay_row, replay, rehydrate_intrusion_timeline,
}
use usb_defense_system.Ui.Window.Events.{
  hide_window, note, describe, announce_locked, mark_locked, on_status_locked, on_status_unlocked,
  on_integrity, refresh_log, on_event_of, on_daemon_event, on_event,
}

module _ {A B : Type 0} where
  -- What follows keeps the overlay as it is.
  bind-visible :
      (m : Exec MainWindow A) (next : A → Exec MainWindow B) (w : MainWindow)
      → ((a : A) (w' : MainWindow) → (next a w').1.overlay.visible ≡ w'.overlay.visible)
      → ((m >>= next) w).1.overlay.visible ≡ (m w).1.overlay.visible
  bind-visible m next w keeps = after (m w)
    where
      after :
          (r : Result A × MainWindow)
          → (continue r.0 next r.1).1.overlay.visible ≡ r.1.overlay.visible
      after (ok a, w') = keeps a w'
      after (err e, w') = refl

module _ (P : Platform) (D : Desktop) where
  replay_row-visible :
      (started_at : Json) (ev : Fields) (o : Overlay)
      → (replay_row P D started_at ev o).1.visible ≡ o.visible
  replay_row-visible started_at ev o = ground (
    arith,
    record_intrusion-visible P D (get_or "kind" (lit "UNKNOWN") ev) (get_or "detail" (lit "") ev)
        (get_or "ts" (lit "") ev) o,
  )

  replay-visible :
      (started_at : Json) (rows : List Json) (o : Overlay)
      → (replay P D started_at rows o).1.visible ≡ o.visible
  unfolding replay
  replay-visible started_at [] o = refl
  replay-visible started_at (obj ev ∷ rows) o =
      after (replay-visible started_at rows) (replay_row P D started_at ev o)
        (replay_row-visible started_at ev o)
    where
      after :
          ((o' : Overlay) → (replay P D started_at rows o').1.visible ≡ o'.visible)
          → (r : Result (Unit {0}) × Overlay) → r.1.visible ≡ o.visible
          → (continue r.0 (λ _. replay P D started_at rows) r.1).1.visible ≡ o.visible
      after rest (ok _, o') h = rest o' ∙ h
      after rest (err e, o') h = h
  replay-visible started_at (null ∷ rows) o = refl
  replay-visible started_at (bool b ∷ rows) o = refl
  replay-visible started_at (int n ∷ rows) o = refl
  replay-visible started_at (str s ∷ rows) o = refl
  replay-visible started_at (arr xs ∷ rows) o = refl

  rehydrate-visible :
      (started_at : Json) (w : MainWindow)
      → (rehydrate_intrusion_timeline P D started_at w).1.overlay.visible ≡ w.overlay.visible
  unfolding rehydrate_intrusion_timeline
  rehydrate-visible started_at w =
      ground (arith, replay-visible started_at (recent P D 500 w) w.overlay)

  module _ (now : Text) where
    described-visible :
        (r : Result Text) (f : Text → MainWindow → MainWindow) (w : MainWindow)
        → ((desc : Text) (w' : MainWindow) → (f desc w').overlay.visible ≡ w'.overlay.visible)
        → (continue r (λ desc. modify (f desc)) w).1.overlay.visible ≡ w.overlay.visible
    described-visible (ok desc) f w keeps = keeps desc w
    described-visible (err e) f w keeps = refl

    announce_locked-visible :
        (offender : Json) (w : MainWindow)
        → (announce_locked P D now offender w).1.overlay.visible ≡ w.overlay.visible
    announce_locked-visible offender w =
        described-visible (describe P D offender)
          (λ desc w'.
            note P D now (codes " LOCKDOWN — " ++ desc) (on_dashboard (set_status_locked desc) w'))
          w (λ desc w'. refl)

    mark_locked-visible :
        (offender : Json) (w : MainWindow)
        → (mark_locked P D now offender w).1.overlay.visible ≡ w.overlay.visible
    mark_locked-visible offender w =
        described-visible (describe P D offender)
          (λ desc w'. on_dashboard (set_status_locked desc) w') w (λ desc w'. refl)

    on_status_locked-visible :
        (event : Fields) (w : MainWindow)
        → (on_status_locked P D now event w).1.overlay.visible ≡ (
            can_show (or_else (get "offender" event) (obj end)) (get "started_at" event)
            || w.overlay.visible)
    on_status_locked-visible event w =
        let offender = or_else (get "offender" event) (obj end) in
        let started_at = get "started_at" event in
        bind-visible (run_overlay (show_for P D offender started_at))
          (λ _. rehydrate_intrusion_timeline P D started_at >> mark_locked P D now offender)
          (hide_window w)
          (λ _ w'.
            bind-visible (rehydrate_intrusion_timeline P D started_at)
              (λ _. mark_locked P D now offender) w' (λ _ w''. mark_locked-visible offender w'')
            ∙ rehydrate-visible started_at w')
        ∙ show_for-visible P D offender started_at w.overlay

    on_status-visible :
        (event : Fields) (locked : Bool) (w : MainWindow)
        → ((if locked then on_status_locked P D now event else modify (on_status_unlocked P D now))
            w).1.overlay.visible
          ≡ (if locked
              then can_show (or_else (get "offender" event) (obj end)) (get "started_at" event)
                || w.overlay.visible
              else false)
    unfolding hide_overlay
    on_status-visible event true w = on_status_locked-visible event w
    on_status-visible event false w = ground arith

    on_event_of-visible :
        (k : EventKind) (event : Fields) (w : MainWindow)
        → (on_event_of P D now k event w).1.overlay.visible ≡ lock_of k event w.overlay.visible
    unfolding on_event_of hide_overlay request_whitelist show_unlock_error
    on_event_of-visible lockdown_enter event w =
        let offender = get_or "offender" (obj end) event in
        bind-visible (run_overlay (show_for P D offender (get "started_at" event)))
          (λ _. announce_locked P D now offender) (hide_window w)
          (λ _ w'. announce_locked-visible offender w')
        ∙ show_for-visible P D offender (get "started_at" event) w.overlay
    on_event_of-visible lockdown_clear event w = ground arith
    on_event_of-visible intrusion_attempt event w = record_intrusion-visible P D _ _ _ w.overlay
    on_event_of-visible status event w =
        let locked = truthy (get "locked" event) in
        bind-visible
          (if locked then on_status_locked P D now event else modify (on_status_unlocked P D now))
          (λ _. modify (on_integrity P D now event)) w (λ _ w'. ground arith)
        ∙ on_status-visible event locked w
    on_event_of-visible whitelist_list event w = refl
    on_event_of-visible whitelist_changed event w = ground arith
    on_event_of-visible add_whitelist_entry event w = ground arith
    on_event_of-visible remove_whitelist_entry event w = ground arith
    on_event_of-visible unlock_with_password event w = ground arith
    on_event_of-visible unlock_with_seed event w = ground arith
    on_event_of-visible unauthorized_insert event w =
        described-visible (describe P D (get_or "device" (obj end) event))
          (λ desc w'.
            note P D now (codes " BLOCKED — " ++ desc) (on_dashboard (set_status_alert desc) w'))
          w (λ desc w'. refl)
    on_event_of-visible authorized_insert event w = refl
    on_event_of-visible unknown event w = refl

    refresh_log-visible :
        (screen : Screen) (w : MainWindow)
        → (refresh_log P D now screen w).1.overlay.visible ≡ w.overlay.visible
    refresh_log-visible log_screen w = refl
    refresh_log-visible dashboard_screen w = refl
    refresh_log-visible whitelist_screen w = refl
    refresh_log-visible settings_screen w = refl

    pub on_event-visible :
        (event : Json) (w : MainWindow)
        → (on_event P D now event w).1.overlay.visible ≡ lock_after event w.overlay.visible
    unfolding on_event on_daemon_event lock_after
    on_event-visible (obj fields) w =
        let k = kind_of (get "type" fields) in
        bind-visible (on_event_of P D now k fields) (λ _ w'. refresh_log P D now w'.screen w') w
          (λ _ w'. refresh_log-visible w'.screen w')
        ∙ on_event_of-visible k fields w
    on_event-visible null w = refl
    on_event-visible (bool b) w = refl
    on_event-visible (int n) w = refl
    on_event-visible (str s) w = refl
    on_event-visible (arr xs) w = refl

  pub handle_all-visible :
      (clock : Json → Text) (events : List Json) (w : MainWindow)
      → (handle_all P (λ e. on_event P D (clock e) e) events w).overlay.visible
        ≡ told w.overlay.visible events
  unfolding told
  handle_all-visible clock [] w = refl
  handle_all-visible clock (e ∷ es) w =
      handle_all-visible clock es (on_event P D (clock e) e w).1
      ∙ ap (λ (b : Bool). told b es) (on_event-visible (clock e) e w)
