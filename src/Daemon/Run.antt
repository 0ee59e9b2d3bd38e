-- ===== src/Daemon/Run.antt =====
-- The life of a daemon: `__init__` and `start`, and the inputs that its threads hand it one after
-- the other.
pub mod Safety
pub mod Restart
pub mod Moves
pub mod Unlockable
pub mod LockedOut
use usb_defense_system.Prelude.{
  ℕ, Bool, true, false, String, Option, none, some, List, [], ◌∷◌, if◌then◌else◌, Text,
}
use usb_defense_system.Json.{Json, null, lit, field, end}
use usb_defense_system.Exec.{Result, ok, err, Exec, Error, any_error, modify, then_do, ◌>>=◌, ◌>>◌}
use usb_defense_system.Platform.{Platform}
use usb_defense_system.Files.{FileSystem, pid_file, write, unlink, must, exists}
use usb_defense_system.Config.{Config, load_config}
use usb_defense_system.Integrity.{ensure_master_key}
use usb_defense_system.Whitelist
use usb_defense_system.Whitelist.{Store}
use usb_defense_system.Monitor.{UsbEvent}
use usb_defense_system.Usbguard.{Tool}
use usb_defense_system.TtyLockdown.{TtyUnit, Watcher}
use usb_defense_system.Daemon.State.{Daemon, Moment, on_files, log_event}
use usb_defense_system.Daemon.Lockdown.{restore_lockdown_if_needed, on_tty_switch_attempt}
use usb_defense_system.Daemon.Events.{on_usb_event}
use usb_defense_system.Daemon.Dispatch.{handle_ipc_command}

-- What outlives a daemon: the files, and the units of systemd.
pub record Machine : Type 0 where
  pub files : FileSystem
  pub running : TtyUnit → Bool
  pub masked : TtyUnit → Bool
  pub reloads : ℕ

abbrev key_or_none : Result Text → Option Text
key_or_none (ok key) = some key
key_or_none (err e) = none

module _ (P : Platform) (t : Moment) where
  abbrev opened : Text → FileSystem → Store
  opened token fs = record {
    files = (ensure_master_key P token fs).1;
    master_key = key_or_none (ensure_master_key P token fs).0;
    entries = [];
    integrity_failed = false;
  }

  abbrev fresh : Config → Machine → Store → Daemon
  fresh c m s = record {
    store = s;
    config = c;
    locked = false;
    lock_offender = null;
    lock_started_at = null;
    auth_failures = 0;
    auth_lockout_until = 0;
    watcher = record { alive = false; baseline = [] };
    running = m.running;
    masked = m.masked;
    reloads = m.reloads;
    screen_locks = 0;
    broadcasts = [];
    policies = [];
  }

  abbrev log_tamper : Daemon → Daemon
  log_tamper d =
      if d.store.integrity_failed
      then log_event P t "WHITELIST_TAMPER" (field "detected_at" (lit "startup") end) d
      else d

  abbrev with_whitelist : Config → Machine → Result (Unit {0}) × Store → Result Daemon
  with_whitelist c m (ok _, s) = ok (log_tamper (fresh c m s))
  with_whitelist c m (err e, s) = err e

  -- `Daemon.__init__`; `token` is what the random source gives if a key has to be made.
  unfoldable pub init : Text → Machine → Result Daemon
  init token m =
      then_do (load_config P m.files)
        λ c. with_whitelist c m (Whitelist.load P (opened token m.files))

  -- `start`, up to the loop that waits for a signal. `pid` is the process number as text.
  unfoldable pub start : Text → Exec Daemon (Unit {0})
  start pid = do on_files (must P (write pid_file pid)); restore_lockdown_if_needed P t

-- What can happen to a daemon that runs. Each handler runs to its end before the next begins.
pub data Input : Type 0 where
  usb : Moment → Tool → UsbEvent → Input
  command : Moment → Json → Input
  tty_switch : Moment → Text → Text → Input

-- The callers drop an exception: `USBMonitor._run`, `IPCServer._client_loop` and
-- `TTYActiveWatcher._run` log it and go on.
unfoldable pub step : Platform → Input → Daemon → Daemon
step P (usb t tool e) d = (on_usb_event P t tool e d).1
step P (command t msg) d = (handle_ipc_command P t msg d).1
step P (tty_switch t new_tty baseline) d = on_tty_switch_attempt P t new_tty baseline d

-- The inputs one after the other.
unfoldable pub run : Platform → List Input → Daemon → Daemon
run P [] d = d
run P (i ∷ is) d = run P is (step P i d)

-- What a daemon that stops, by a signal or a crash, leaves behind.
abbrev pub machine_of : Daemon → Machine
machine_of d = record {
  files = d.store.files;
  running = d.running;
  masked = d.masked;
  reloads = d.reloads;
}

-- `_shutdown`, as far as it changes files
unfoldable pub remove_pid : Platform → Exec FileSystem (Unit {0})
remove_pid P fs = if exists fs pid_file then must P (unlink pid_file) fs else (ok tt, fs)
