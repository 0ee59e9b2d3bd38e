-- ===== src/Daemon/Lockdown.antt =====
-- Entering, leaving and restoring a lockdown, and what is recorded during one.
pub mod Invariant
pub mod Consistency
pub mod Consoles
use usb_defense_system.Prelude.{
  ℕ, suc, ◌+◌, Bool, true, false, not, String, Option, none, some, List, [], ◌∷◌, ◌++◌,
  if◌then◌else◌, Text, codes,
}
use usb_defense_system.Json.{
  Json, null, bool, str, obj, lit, field, end, Fields, lookup, update, truthy,
}
use usb_defense_system.Exec.{
  Result, ok, err, Exec, pure, raise, modify, gets, attribute_error, ◌>>=◌, ◌>>◌,
}
use usb_defense_system.Platform.{Platform}
use usb_defense_system.Files.{
  FileSystem, File, FilePath, persistent_lockdown_flag, lockdown_flag, write, unlink, must, exists,
}
use usb_defense_system.TtyLockdown.{
  lock_tty, unlock_tty, current_active_tty, start_watcher, stop_watcher,
}
use usb_defense_system.Daemon.State.{
  Daemon, Moment, on_files, on_host, broadcast, log_event, get_field, with_files,
}

-- What the persistent flag holds.
abbrev pub flag_document : Json → Json → Json
flag_document offender started_at =
    obj (field "locked" (bool true) (field "offender" offender (field "started_at" started_at end)))

module _ (P : Platform) where
  abbrev lock_host : Daemon → Daemon
  lock_host d =
      let d' = on_host (lock_tty P) d in
      record d' { watcher = start_watcher (current_active_tty d'.store.files) d'.watcher }

  -- `_trigger_screen_lock`; a failure is logged and dropped.
  unfoldable pub trigger_screen_lock : Daemon → Daemon
  trigger_screen_lock d =
      if truthy d.config.lockdown_screen_lock
      then (if P.systemctl_ok then record d { screen_locks = suc d.screen_locks } else d)
      else d

  -- The text of the persistent flag.
  abbrev pub flag_payload : Json → Json → Text
  flag_payload offender started_at = P.dumps (flag_document offender started_at) ++ 10 ∷ []

  -- `offender.get("fingerprint")`, for the log message
  abbrev logs_fingerprint : Json → Exec Daemon (Unit {0})
  logs_fingerprint (obj fs) = pure tt
  logs_fingerprint _ = raise attribute_error

  abbrev begin_lockdown : Moment → Json → Exec Daemon (Unit {0})
  begin_lockdown t offender = do
    modify (λ d. record d { locked = true; lock_offender = offender; lock_started_at = str t.now })
    logs_fingerprint offender
    on_files (must P (write persistent_lockdown_flag (flag_payload offender (str t.now))))
    on_files (must P (write lockdown_flag (codes "active\n")))
    modify (
        broadcast (
          field "type" (lit "lockdown_enter")
            (field "offender" offender (field "started_at" (str t.now) end))))
    modify lock_host
    modify trigger_screen_lock

  -- `_enter_lockdown`
  unfoldable pub enter_lockdown : Moment → Json → Exec Daemon (Unit {0})
  unfolding trigger_screen_lock
  enter_lockdown t offender d = if d.locked then (ok tt, d) else begin_lockdown t offender d

  -- `try: path.unlink() except FileNotFoundError: pass`
  abbrev pub unlink_if_there : FilePath → Exec FileSystem (Unit {0})
  unlink_if_there p fs = if exists fs p then must P (unlink p) fs else (ok tt, fs)

  abbrev end_lockdown : Json → Json → Bool → Exec Daemon (Unit {0})
  end_lockdown reason unlock_device warn = do
    modify (λ d. record d {
      locked = false;
      lock_offender = null;
      lock_started_at = null;
      watcher = stop_watcher d.watcher;
    })
    on_files (unlink_if_there persistent_lockdown_flag)
    on_files (unlink_if_there lockdown_flag)
    modify (on_host (unlock_tty P))
    modify (
        broadcast (
          field "type" (lit "lockdown_clear") (
            field "reason" reason (
              field "unlock_device" unlock_device (field "warn_regenerate_seed" (bool warn) end)))))

  -- `_clear_lockdown`
  unfoldable pub clear_lockdown : Json → Json → Bool → Exec Daemon (Unit {0})
  clear_lockdown reason unlock_device warn d =
      if d.locked then end_lockdown reason unlock_device warn d else (ok tt, d)

  -- `_record_intrusion`; `extra` is empty where the call gives none.
  unfoldable pub record_intrusion : Moment → String → Text → Fields → Daemon → Daemon
  unfolding update
  record_intrusion t kind detail extra d =
      broadcast
        (field "type" (lit "intrusion_attempt")
          (field "kind" (lit kind) (field "detail" (str detail) (field "ts" (str t.now) end))))
        (log_event P t "INTRUSION_ATTEMPT"
          (update
            (field "kind" (lit kind) (field "detail" (str detail) (field "ts" (str t.now) end)))
            extra)
          d)

  -- `_on_tty_switch_attempt`
  unfoldable pub on_tty_switch_attempt : Moment → Text → Text → Daemon → Daemon
  unfolding record_intrusion
  on_tty_switch_attempt t new_tty baseline d =
      if d.locked
      then record_intrusion t "TTY_SWITCH"
          (codes "Foreground VT changed from " ++ (baseline ++ (codes " to " ++ new_tty)))
          (field "new_tty" (str new_tty) (field "baseline_tty" (str baseline) end)) d
      else d

  abbrev restored : Option Json → Daemon → Daemon
  restored (some (obj fs)) d = record d {
    lock_offender = get_field (lookup "offender" fs) null;
    lock_started_at = get_field (lookup "started_at" fs) null;
  }
  restored _ d = d

  abbrev or_now : Text → Json → Json
  or_now now null = str now
  or_now now j = j

  abbrev restore_from : Moment → File → Exec Daemon (Unit {0})
  restore_from t flag = do
    modify (λ d. restored (P.loads flag.content) (record d { locked = true }))
    modify (λ d. record d { lock_started_at = or_now t.now d.lock_started_at })
    on_files (must P (write lockdown_flag (codes "restored\n")))
    modify lock_host

  abbrev restore_if : Moment → Option File → Exec Daemon (Unit {0})
  restore_if t none = pure tt
  restore_if t (some flag) = restore_from t flag

  -- `_restore_lockdown_if_needed`
  unfoldable pub restore_lockdown_if_needed : Moment → Exec Daemon (Unit {0})
  restore_lockdown_if_needed t d = restore_if t (d.store.files persistent_lockdown_flag) d
