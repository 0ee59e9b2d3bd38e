-- ===== src/Tests/Interface.antt =====
-- The socket and the user interface at concrete inputs.
use usb_defense_system.Prelude.{
  ◌≤◌, length, ◌≡◌, refl, true, false, not, none, some, List, [], ◌∷◌, Text, codes, text_eq,
  if◌then◌else◌, map, keep, strip, lower,
}
use usb_defense_system.Json.{Json, null, str, obj, lit, field, end, lookup, py_eq}
use usb_defense_system.Exec.{ok}
use usb_defense_system.Platform.{Platform}
use usb_defense_system.Config.{default_config}
use usb_defense_system.Whitelist.{match_entry}
use usb_defense_system.Daemon.Events.{event_to_dict, on_usb_event, set_in_usbguard}
use usb_defense_system.Daemon.Run.{Input, usb, step, run}
use usb_defense_system.Daemon.Broadcasts.{told}
use usb_defense_system.Daemon.Lockdown.{enter_lockdown}
use usb_defense_system.EventLog
use usb_defense_system.Usbguard.{find_by_fingerprint, list_devices}
use usb_defense_system.Ipc.{cut_lines}
use usb_defense_system.Ipc.Server.{Peer, Server, line_of, broadcast, send_each, remove_dead}
use usb_defense_system.Daemon.Service.{Service, serve_all, serve, broadcast_all}
use usb_defense_system.Ipc.Server.Broadcasting.{
  with_line, is_reachable, number_of, broadcast-reachable,
}
use usb_defense_system.Ipc.Client.{recv_loop}
use usb_defense_system.Ipc.Client.Receiving.{IsSent, AreSent, handle_all, recv_loop-stream}
use usb_defense_system.Ui.Display.{Desktop}
use usb_defense_system.Ui.Overlay.{new_overlay}
use usb_defense_system.Ui.Overlay.Timeline.{Attempt, newest, record_all, rows_of, record_all-newest}
use usb_defense_system.Ui.Window.{MainWindow, refresh_dashboard}
use usb_defense_system.Ui.Window.Offline.{refresh_dashboard-hidden}
use usb_defense_system.Daemon.Commands.{status_reply}
use usb_defense_system.Ui.Window.Rehydration.{replay}
use usb_defense_system.Ui.Window.Events.{on_event}
use usb_defense_system.Ui.Window.Opening.{new_client, built}
use usb_defense_system.Ui.Window.Agreement.{overlay_follows_service}
use usb_defense_system.Ui.Window.Joining.{attempt_of, is_recent, replay-eq, on_event-status_reply}
use usb_defense_system.Tests.Host.{
  host, no_files, unlocked_daemon, locked_daemon, moment, plugged, quiet,
}

abbrev desktop : Desktop
desktop = record {
  fromisoformat = λ s. none;
  hms = λ n. codes "12:00:00";
  full = λ n. codes "2026-01-01 12:00:00";
  int_of_float = λ s. none;
  yaml_dump = λ j. codes "settings";
  log_readable = true;
}

abbrev window : MainWindow
window =
    built no_files (new_client true)
      (record {
        config = end;
        grace_period = 0;
        require_unlock_key = true;
        notify_on_authorized = true;
      })
      []

-- An unknown stick is plugged in: two events, which the codec writes as `1` and `2`.
abbrev inputs : List Input
inputs = usb moment quiet (plugged (codes "ZZ")) ∷ []

abbrev blocked_event : Json
blocked_event = obj (
    field "type" (lit "unauthorized_insert")
      (field "device" (obj (event_to_dict (plugged (codes "ZZ")))) end))

abbrev enter_event : Json
enter_event = obj (
    field "type" (lit "lockdown_enter") (
      field "offender" (obj (event_to_dict (plugged (codes "ZZ"))))
        (field "started_at" (lit "noon") end)))

abbrev coded : Platform
coded = record host {
  dumps = λ j. if py_eq j blocked_event then codes "1" else codes "2";
  loads = λ s. if text_eq s (codes "1") then some blocked_event else some enter_event;
}

abbrev events : List Json
events = blocked_event ∷ enter_event ∷ []

abbrev chunks : List Text
chunks = codes "1\n2" ∷ codes "\n" ∷ []

events_sent : AreSent coded events
unfolding text_eq py_eq lookup event_to_dict cut_lines strip
events_sent =
    let first : IsSent coded blocked_event = record {
      parses = refl;
      one_line = refl;
      decodes = refl;
      not_blank = refl;
    } in
    let second : IsSent coded enter_event = record {
      parses = refl;
      one_line = refl;
      decodes = refl;
      not_blank = refl;
    } in
    (first, (second, tt))

abbrev client : Peer
client = record { number = 4; reachable = true; received = [] }

-- Two clients, of which the first is gone.
abbrev server : Server
server = record {
  socket_file = none;
  listening = true;
  stopped = false;
  clients = record { number = 3; reachable = false; received = [] } ∷ client ∷ [];
  closed = [];
}

abbrev service : Service
service = record { daemon = unlocked_daemon; server = server; monitoring = true; running = true }

overlay_follows_service_example :
    (recv_loop coded
      (λ e. on_event coded desktop (codes "12:00:00") e)
      chunks
      (new_client true, window)).1.overlay.visible
    ≡ (serve_all coded inputs service).daemon.locked
unfolding told run step on_usb_event match_entry py_eq lower set_in_usbguard find_by_fingerprint
    list_devices enter_lockdown EventLog.write event_to_dict serve_all serve broadcast_all broadcast
    send_each remove_dead lookup text_eq
overlay_follows_service_example =
    overlay_follows_service coded desktop {c = default_config} refl (λ e. codes "12:00:00") inputs
      events chunks 4 client (record client { received = codes "1\n" ∷ codes "2\n" ∷ [] }) service
      (new_client true) window (record { flags_match = (refl, refl, refl, refl) })
      (record { distinct = (refl, (refl, tt)); found = refl; reachable = refl }) refl refl
      events_sent refl refl

recv_loop-stream_example :
    recv_loop coded
      (λ e. on_event coded desktop (codes "12:00:00") e)
      chunks
      (new_client true, window)
    ≡ (
      record (new_client true) { connected = false },
      handle_all coded (λ e. on_event coded desktop (codes "12:00:00") e) events window,
    )
unfolding py_eq lookup text_eq event_to_dict
recv_loop-stream_example =
    recv_loop-stream coded (λ e. on_event coded desktop (codes "12:00:00") e) events chunks
      (new_client true) window events_sent refl

broadcast-reachable_example : broadcast coded enter_event server ≡ record server {
  clients = map (with_line (line_of coded enter_event)) (keep is_reachable server.clients);
  closed = map number_of (keep (λ (p : Peer). not p.reachable) server.clients);
}
broadcast-reachable_example = broadcast-reachable coded enter_event server (refl, (refl, tt))

abbrev attempts : List Attempt
attempts =
    record { kind = lit "WRONG_PASSWORD"; detail = lit "again"; ts = lit "noon" }
    ∷ record { kind = null; detail = lit "no kind"; ts = lit "noon" }
    ∷ record { kind = lit "USB_RETRY"; detail = lit "stick"; ts = null }
    ∷ []

record_all-newest_example :
    let o = record_all host desktop attempts new_overlay in
    (o.timeline ≡ newest (rows_of host desktop attempts)) × (length o.timeline ≤ 200)
record_all-newest_example = record_all-newest host desktop attempts [] new_overlay refl

-- A log with an attempt of before the lockdown, another row, and an attempt during the lockdown.
abbrev attempt_row : Text → Json
attempt_row ts = obj (
    field "ts" (str ts)
      (field "type" (lit "INTRUSION_ATTEMPT") (field "kind" (lit "TTY_SWITCH") end)))

abbrev log_rows : List Json
log_rows =
    attempt_row (codes "11:00")
    ∷ obj (field "type" (lit "REMOVE") end)
    ∷ attempt_row (codes "12:30")
    ∷ []

replay-eq_example : replay host desktop (lit "12:00") log_rows new_overlay ≡ (
  ok tt,
  record_all host desktop (map attempt_of (keep (is_recent (codes "12:00")) log_rows)) new_overlay,
)
unfolding lookup text_eq
replay-eq_example =
    replay-eq host desktop (codes "12:00") log_rows new_overlay (refl, (refl, (refl, tt)))

on_event-status_reply_example :
    (on_event host desktop
      (codes "12:00:00")
      (status_reply moment locked_daemon)
      window).1.overlay.visible
    ≡ true
on_event-status_reply_example =
    on_event-status_reply host desktop (codes "12:00:00") moment locked_daemon window refl

-- A window that hid itself for a lockdown, and whose connection is gone.
abbrev hidden_window : MainWindow
hidden_window = record window { overlay = record new_overlay { visible = true; grabs = true } }

refresh_dashboard-hidden_example :
    let w = (refresh_dashboard host true hidden_window).1 in
    let w' = (on_event host desktop (codes "12:00:00") (status_reply moment unlocked_daemon) w).1 in
    (w.overlay.visible ≡ false)
    × (w.visible ≡ false)
    × (w'.overlay.visible ≡ false)
    × (w'.visible ≡ false)
refresh_dashboard-hidden_example =
    refresh_dashboard-hidden host desktop true (codes "12:00:00") moment unlocked_daemon
      hidden_window refl refl refl
