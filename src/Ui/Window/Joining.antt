-- ===== src/Ui/Window/Joining.antt =====
-- A user interface that joins a lockdown which has already begun: the status that the daemon
-- answers, and the attempts in the event log.
use usb_defense_system.Prelude.{
  ◌≡◌, refl, sym, ap, ◌∙◌, Bool, true, false, not, ◌&&◌, ◌||◌, List, [], ◌∷◌, Text, arith,
  if◌then◌else◌, keep, map, AllTrue,
}
use usb_defense_system.Json.{Json, null, bool, int, str, arr, obj, lit, Fields, end, or_else}
use usb_defense_system.Exec.{ok}
use usb_defense_system.Platform.{Platform}
use usb_defense_system.Daemon.State.{Daemon, Moment}
use usb_defense_system.Daemon.Commands.{get, get_or, status_reply}
use usb_defense_system.Daemon.Broadcasts.{can_show, lock_after}
use usb_defense_system.Ui.Display.{Desktop, text_ltb}
use usb_defense_system.Ui.LogScreen.{is_text}
use usb_defense_system.Ui.Overlay.{Overlay, record_intrusion}
use usb_defense_system.Ui.Overlay.Timeline.{Attempt, record_all}
use usb_defense_system.Ui.Window.{MainWindow}
use usb_defense_system.Ui.Window.Rehydration.{replay, replay_row}
use usb_defense_system.Ui.Window.Events.{on_event}
use usb_defense_system.Ui.Window.Following.{on_event-visible}

abbrev is_str : Json → Bool
is_str (str s) = true
is_str _ = false

-- `ev.get("type") == "INTRUSION_ATTEMPT"`
abbrev is_intrusion : Fields → Bool
is_intrusion ev = is_text "INTRUSION_ATTEMPT" (get "type" ev)

-- An object, whose kind and time are texts if it is an intrusion attempt.
abbrev pub can_replay : Json → Bool
can_replay (obj ev) =
    not (is_intrusion ev)
    || (is_str (get_or "kind" (lit "UNKNOWN") ev) && is_str (get_or "ts" (lit "") ev))
can_replay _ = false

abbrev is_since : Text → Json → Bool
is_since started_at (str ts) = not (text_ltb ts started_at)
is_since started_at _ = false

-- An intrusion attempt that is not older than the given time.
abbrev pub is_recent : Text → Json → Bool
is_recent started_at (obj ev) = is_intrusion ev && is_since started_at (get_or "ts" (lit "") ev)
is_recent started_at _ = false

abbrev pub attempt_of : Json → Attempt
attempt_of (obj ev) = record {
  kind = get_or "kind" (lit "UNKNOWN") ev;
  detail = get_or "detail" (lit "") ev;
  ts = get_or "ts" (lit "") ev;
}
attempt_of _ = record { kind = lit "UNKNOWN"; detail = lit ""; ts = lit "" }

module _ (P : Platform) (D : Desktop) where
  record_intrusion-ok :
      (kind detail ts : Json) (o : Overlay)
      → is_str kind ≡ true
      → is_str ts ≡ true
      → (record_intrusion P D kind detail ts o).0 ≡ ok tt
  unfolding record_intrusion
  record_intrusion-ok (str kind) detail (str []) o h k = refl
  record_intrusion-ok (str kind) detail (str (c ∷ ts)) o h k = refl
  record_intrusion-ok (str kind) detail null o h k = cc
  record_intrusion-ok (str kind) detail (bool b) o h k = cc
  record_intrusion-ok (str kind) detail (int n) o h k = cc
  record_intrusion-ok (str kind) detail (arr xs) o h k = cc
  record_intrusion-ok (str kind) detail (obj fs) o h k = cc
  record_intrusion-ok null detail ts o h k = cc
  record_intrusion-ok (bool b) detail ts o h k = cc
  record_intrusion-ok (int n) detail ts o h k = cc
  record_intrusion-ok (arr xs) detail ts o h k = cc
  record_intrusion-ok (obj fs) detail ts o h k = cc

  abbrev record_if : Bool → Attempt → Overlay → Overlay
  record_if recent a o = if recent then (record_intrusion P D a.kind a.detail a.ts o).1 else o

  replay_row-eq :
      (started_at : Text) (ev : Fields) (o : Overlay)
      → can_replay (obj ev) ≡ true
      → replay_row P D (str started_at) ev o
        ≡ (ok tt, record_if (is_recent started_at (obj ev)) (attempt_of (obj ev)) o)
  replay_row-eq started_at ev o h = ground (
    arith,
    h,
    record_intrusion-ok (get_or "kind" (lit "UNKNOWN") ev) (get_or "detail" (lit "") ev)
        (get_or "ts" (lit "") ev) o,
  )

  record_all-keep :
      (started_at : Text) (row : Json) (rows : List Json) (o : Overlay)
      → record_all P D (map attempt_of (keep (is_recent started_at) (row ∷ rows))) o
        ≡ record_all P D
            (map attempt_of (keep (is_recent started_at) rows))
            (record_if (is_recent started_at row) (attempt_of row) o)
  record_all-keep started_at row rows o = ground arith

  -- Where every row of the event log is an object, and an intrusion attempt has a text for its kind
  -- and for its time, the loop of `_rehydrate_intrusion_timeline` ends without an error, and does to
  -- the overlay what recording those rows does, in their order, that are intrusion attempts not older
  -- than the start of the lockdown.
  pub replay-eq :
      (started_at : Text) (rows : List Json) (o : Overlay)
      → AllTrue can_replay rows
      → replay P D (str started_at) rows o
        ≡ (ok tt, record_all P D (map attempt_of (keep (is_recent started_at) rows)) o)
  unfolding replay
  replay-eq started_at [] o h = refl
  replay-eq started_at (obj ev ∷ rows) o (h, hs) = rw (replay_row-eq started_at ev o h) (
      replay-eq started_at rows (record_if (is_recent started_at (obj ev)) (attempt_of (obj ev)) o)
        hs
      ∙ ap (λ (o' : Overlay). (ok tt, o')) (sym (record_all-keep started_at (obj ev) rows o)))
  replay-eq started_at (null ∷ rows) o (h, hs) = cc
  replay-eq started_at (bool b ∷ rows) o (h, hs) = cc
  replay-eq started_at (int n ∷ rows) o (h, hs) = cc
  replay-eq started_at (str s ∷ rows) o (h, hs) = cc
  replay-eq started_at (arr xs ∷ rows) o (h, hs) = cc

  -- Where the offender is an object or missing, and the start of the lockdown a text or missing, the
  -- window that handles the daemon's status shows the overlay exactly if the daemon is locked.
  pub on_event-status_reply :
      (now : Text) (t : Moment) (d : Daemon) (w : MainWindow)
      → can_show (or_else d.lock_offender (obj end)) d.lock_started_at ≡ true
      → (on_event P D now (status_reply t d) w).1.overlay.visible ≡ d.locked
  unfolding status_reply lock_after
  on_event-status_reply now t d w h =
      on_event-visible P D now (status_reply t d) w ∙ ground (arith, h)
