-- ===== src/Ui/Window/Rehydration.antt =====
-- The timeline of a user interface that joins a lockdown which has already begun.
use usb_defense_system.Prelude.{ℕ, Bool, not, List, [], ◌∷◌, if◌then◌else◌}
use usb_defense_system.Json.{Json, str, lit, Fields, truthy}
use usb_defense_system.Exec.{Result, ok, err, Exec, pure, lift, when, type_error, ◌>>=◌, ◌>>◌}
use usb_defense_system.Platform.{Platform}
use usb_defense_system.EventLog.{read_recent}
use usb_defense_system.Daemon.Commands.{get, get_or, as_object}
use usb_defense_system.Ui.Display.{Desktop, text_ltb}
use usb_defense_system.Ui.Overlay.{Overlay, record_intrusion}
use usb_defense_system.Ui.LogScreen.{is_text}
use usb_defense_system.Ui.Window.{MainWindow, run_overlay}

module _ (P : Platform) (D : Desktop) where
  -- `ts < started_at_iso`; `started_at_iso` is a text, since `show_for` raises on other values that
  -- count as true.
  abbrev is_before : Json → Json → Result Bool
  is_before (str ts) (str started_at) = ok (text_ltb ts started_at)
  is_before _ _ = err type_error

  abbrev replay_since : Json → Fields → Exec Overlay (Unit {0})
  replay_since started_at ev = do
    early ← lift (is_before (get_or "ts" (lit "") ev) started_at)
    when (not early) (
        record_intrusion P D (get_or "kind" (lit "UNKNOWN") ev) (get_or "detail" (lit "") ev)
          (get_or "ts" (lit "") ev))

  abbrev pub replay_row : Json → Fields → Exec Overlay (Unit {0})
  replay_row started_at ev =
      if is_text "INTRUSION_ATTEMPT" (get "type" ev) then replay_since started_at ev else pure tt

  -- The loop of `_rehydrate_intrusion_timeline`.
  unfoldable pub replay : Json → List Json → Exec Overlay (Unit {0})
  unfolding text_ltb
  replay started_at [] = pure tt
  replay started_at (row ∷ rows) = do
    ev ← lift (as_object row)
    replay_row started_at ev
    replay started_at rows

  abbrev pub recent : ℕ → MainWindow → List Json
  recent limit w = if D.log_readable then read_recent P limit w.files else []

  -- `_rehydrate_intrusion_timeline`
  unfoldable pub rehydrate_intrusion_timeline : Json → Exec MainWindow (Unit {0})
  unfolding replay
  rehydrate_intrusion_timeline started_at w =
      if truthy started_at then run_overlay (replay started_at (recent 500 w)) w else (ok tt, w)
