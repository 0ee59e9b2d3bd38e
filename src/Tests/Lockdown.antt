-- ===== src/Tests/Lockdown.antt =====
-- Witnesses for the lockdown, from a device that is plugged in to a restart, and for the consoles.
use usb_defense_system.Prelude.{
  ◌≡◌, refl, true, false, ◌&&◌, Option, some, List, [], ◌∷◌, ◌++◌, Text, codes, drop, arith,
  text_eq, if◌then◌else◌,
}
use usb_defense_system.Json.{Json, Fields, lit, bool, obj, field, end}
use usb_defense_system.Exec.{Result, ok, err}
use usb_defense_system.Platform.{Platform}
use usb_defense_system.Files.{FileSystem, event_log_path, set_file, persistent_lockdown_flag}
use usb_defense_system.Config.{default_config}
use usb_defense_system.Usbguard.{Tool}
use usb_defense_system.Whitelist.{WhitelistEntry, match_entry}
use usb_defense_system.Whitelist
use usb_defense_system.TtyLockdown.{getty, lock_tty, unlock_tty}
use usb_defense_system.EventLog
use usb_defense_system.EventLog.{log_record, parse_rows, read_recent}
use usb_defense_system.EventLog.Reading.{read_recent-write}
use usb_defense_system.TtyLockdown.{watch}
use usb_defense_system.TtyLockdown.Watching.{changes, watch-eq-changes}
use usb_defense_system.TtyLockdown.Masks.{unlock_tty-lock_tty}
use usb_defense_system.Daemon.State.{Daemon}
use usb_defense_system.Daemon.Lockdown.{enter_lockdown}
use usb_defense_system.Daemon.Lockdown.Consoles.{enter_lockdown-consoles}
use usb_defense_system.Daemon.Lockdown.Consistency.{IsConsistent}
use usb_defense_system.Daemon.Events.{on_usb_event}
use usb_defense_system.Daemon.Events.Inserts.{locked_after, can_tell, on_usb_event-locked}
use usb_defense_system.Daemon.Run.{Input, usb, command, tty_switch, run, machine_of, init}
use usb_defense_system.Daemon.Run.Safety.{run-IsConsistent}
use usb_defense_system.Tests.Host.{
  host, host_with, no_files, private_file, daemon, unlocked_daemon, locked_daemon, moment, request,
  offending, console_host, plugged, stick, quiet,
}

-- An unknown stick, an unlock with the password, and a console switch in between.
abbrev inputs : List Input
inputs =
    usb moment quiet (plugged (codes "ZZ"))
    ∷ tty_switch moment (codes "tty3") (codes "tty1")
    ∷ command moment (request (codes "unlock_with_password") end)
    ∷ []

run-IsConsistent_example : IsConsistent host default_config (run host inputs unlocked_daemon)
run-IsConsistent_example =
    run-IsConsistent host refl inputs unlocked_daemon
      (record { flags_match = (refl, refl, refl, refl) })

abbrev flag : Json
flag = obj (
    field "locked" (bool true)
      (field "offender" (obj offending) (field "started_at" (lit "noon") end)))

abbrev restarting : Platform
restarting = host_with flag

abbrev flagged : FileSystem
flagged = set_file persistent_lockdown_flag (some (private_file (codes "{}\n"))) no_files

abbrev stopped : Daemon
stopped = daemon flagged default_config true (obj offending) (lit "noon")

abbrev or_stopped : Result Daemon → Daemon
or_stopped (ok d) = d
or_stopped (err e) = stopped

abbrev random : Text
random = codes "0123456789abcdef"

abbrev restarted : Daemon
restarted = or_stopped (init restarting moment random (machine_of stopped))

abbrev known : Option WhitelistEntry
known = match_entry (stick ∷ []) (codes "0781") (codes "5567") (codes "A1")

-- USBGuard lists the stick.
abbrev listing : Tool
listing = record {
  listing = ok (some (codes "7: allow id 0781:5567 serial \"A1\" name \"Cruzer\"\n"));
  applied = ok true;
}

on_usb_event-locked_example :
    (on_usb_event host moment listing (plugged (codes "A1")) locked_daemon).1.locked ≡ (
      if text_eq (codes "add") (codes "add") && can_tell listing (plugged (codes "A1"))
      then locked_after locked_daemon known
      else true)
on_usb_event-locked_example =
    on_usb_event-locked host moment listing (plugged (codes "A1")) locked_daemon

unlock_tty-lock_tty_example :
    ((lock_tty host console_host).masked (getty 1) ≡ true)
    × ((lock_tty host console_host).running (getty 1) ≡ false)
    × ((unlock_tty host (lock_tty host console_host)).masked (getty 1) ≡ false)
unlock_tty-lock_tty_example = unlock_tty-lock_tty host console_host (getty 1) refl

abbrev readings : List Text
readings = codes "tty3" ∷ codes "tty3" ∷ [] ∷ codes "tty1" ∷ codes "tty3" ∷ []

watch-eq-changes_example :
    watch (codes "tty1") readings ≡ changes (codes "tty1") (codes "tty1") readings
unfolding text_eq
watch-eq-changes_example = watch-eq-changes (codes "tty1") readings refl

abbrev event : Fields
event = field "serial" (lit "ZZ") end

abbrev logging : Platform
logging = host_with (log_record (codes "noon") "REMOVE" event)

abbrev log_rows : List Text
log_rows = codes "{}" ∷ codes "[]" ∷ []

abbrev logged : FileSystem
logged =
    set_file event_log_path
      (some (record { content = codes "{}\n[]\n"; mode = 0o640; immutable = false })) no_files

read_recent-write_example :
    read_recent logging 2 (EventLog.write logging (codes "noon") "REMOVE" event logged)
    ≡ parse_rows logging (drop 1 log_rows) ++ log_record (codes "noon") "REMOVE" event ∷ []
unfolding text_eq
read_recent-write_example =
    read_recent-write logging 1 (codes "noon") "REMOVE" event log_rows 0o640 logged refl
      (ground arith) (ground arith) refl

enter_lockdown-consoles_example :
    let (r, d') = enter_lockdown host moment (obj offending) unlocked_daemon in
    (r ≡ ok tt)
    × (d'.locked ≡ true)
    × (d'.lock_offender ≡ obj offending)
    × (d'.watcher.alive ≡ true)
    × (d'.masked (getty 1) ≡ true)
    × (d'.running (getty 1) ≡ false)
enter_lockdown-consoles_example =
    enter_lockdown-consoles host {c = default_config} moment offending unlocked_daemon (getty 1)
      (record { flags_match = (refl, refl, refl, refl) }) refl refl refl
