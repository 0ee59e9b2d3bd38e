-- ===== src/Daemon/State.antt =====
-- The state of a `Daemon` object, and the calls by which its methods change it.
use usb_defense_system.Prelude.{ℕ, Bool, String, Option, none, some, List, [], ◌∷◌, ◌++◌, Text}
use usb_defense_system.Json.{Json, obj, Fields}
use usb_defense_system.Exec.{Exec}
use usb_defense_system.Platform.{Platform}
use usb_defense_system.Files.{FileSystem}
use usb_defense_system.Config.{Config}
use usb_defense_system.EventLog
use usb_defense_system.Whitelist.{Store}
use usb_defense_system.Usbguard.{Policy}
use usb_defense_system.TtyLockdown.{Host, TtyUnit, Watcher}

-- What a method reads from outside while it runs: the clocks, and the bytes for an identifier.
pub record Moment : Type 0 where
  pub monotonic : ℕ
  pub now : Text
  pub uuid : Text

pub record Daemon : Type 0 where
  -- the whitelist, with the file system
  pub store : Store
  pub open store use {files, entries, integrity_failed}
  pub config : Config
  pub locked : Bool
  pub lock_offender : Json
  pub lock_started_at : Json
  pub auth_failures : ℕ
  pub auth_lockout_until : ℕ
  pub watcher : Watcher
  -- the host: units of systemd, reloads of logind, calls of `loginctl lock-sessions`
  pub running : TtyUnit → Bool
  pub masked : TtyUnit → Bool
  pub reloads : ℕ
  pub screen_locks : ℕ
  -- what was sent so far: the events broadcast to the clients, the policies given to USBGuard
  pub broadcasts : List Json
  pub policies : List Policy

abbrev pub with_files : FileSystem → Daemon → Daemon
with_files fs d = record d { store = record d.store { files = fs } }

-- A method of a part, run on the daemon that holds the part.
module _ {A : Type 0} where
  abbrev pub on_files : Exec FileSystem A → Exec Daemon A
  on_files m d = let r = m d.store.files in (r.0, with_files r.1 d)

  abbrev pub on_store : Exec Store A → Exec Daemon A
  on_store m d = let r = m d.store in (r.0, record d { store = r.1 })

abbrev pub on_host : (Host → Host) → Daemon → Daemon
on_host f d =
    let h = f (record {
      files = d.store.files;
      running = d.running;
      masked = d.masked;
      reloads = d.reloads;
    }) in
    record (with_files h.files d) { running = h.running; masked = h.masked; reloads = h.reloads }

-- `self.ipc.broadcast(event)`
abbrev pub broadcast : Fields → Daemon → Daemon
broadcast event d = record d { broadcasts = d.broadcasts ++ obj event ∷ [] }

-- `self.event_log.write(kind, event)`
abbrev pub log_event : Platform → Moment → String → Fields → Daemon → Daemon
log_event P t kind event d = with_files (EventLog.write P t.now kind event d.store.files) d

-- `value.get(key)` on what should be an object, with `None` or a default for a missing key.
abbrev pub get_field : Option Json → Json → Json
get_field none default = default
get_field (some v) default = v
