-- ===== src/Daemon/Lockdown/Consistency.antt =====
-- The flag files and the lockdown in memory, over `_enter_lockdown` and `_clear_lockdown`.
use usb_defense_system.Prelude.{
  ◌≡◌, refl, ◌∙◌, Bool, false, none, some, Text, codes, String, arith, if◌then◌else◌,
}
use usb_defense_system.Json.{Json, str, obj, Fields}
use usb_defense_system.Platform.{Platform}
use usb_defense_system.Files.{
  FilePath, set_file, written, FileSystem, is_immutable, persistent_lockdown_flag, lockdown_flag,
}
use usb_defense_system.Files.Content.{content_at}
use usb_defense_system.TtyLockdown.{Host}
use usb_defense_system.TtyLockdown.Masks.{lock_tty-files, unlock_tty-files}
use usb_defense_system.EventLog
use usb_defense_system.Config.{Config}
use usb_defense_system.Daemon.State.{Daemon, Moment}
use usb_defense_system.Daemon.Lockdown.{
  enter_lockdown, clear_lockdown, record_intrusion, flag_payload, unlink_if_there,
  on_tty_switch_attempt,
}

-- The persistent flag holds the offender and the time of the lockdown in memory, and is missing
-- when there is none; no flag file is immutable; the configuration is the given one.
abbrev pub FlagsMatch : Platform → Config → Daemon → Type 0
FlagsMatch P c d =
    (content_at d.store.files persistent_lockdown_flag
      ≡ (if d.locked then some (flag_payload P d.lock_offender d.lock_started_at) else none))
    × (is_immutable (d.store.files persistent_lockdown_flag) ≡ false)
    × (is_immutable (d.store.files lockdown_flag) ≡ false)
    × (d.config ≡ c)

pub record IsConsistent (P : Platform) (c : Config) (d : Daemon) : Type 0 where
  pub flags_match : FlagsMatch P c d

-- Two states of a daemon that agree on the lockdown, in memory and on the disk.
abbrev pub SameLock : Daemon → Daemon → Type 0
SameLock d d' =
    (d'.locked ≡ d.locked)
    × (d'.lock_offender ≡ d.lock_offender)
    × (d'.lock_started_at ≡ d.lock_started_at)
    × (d'.store.files persistent_lockdown_flag ≡ d.store.files persistent_lockdown_flag)
    × (d'.store.files lockdown_flag ≡ d.store.files lockdown_flag)
    × (d'.config ≡ d.config)

module _ (P : Platform) where
  pub same_lock :
      {c : Config} (d d' : Daemon) → SameLock d d' → IsConsistent P c d → IsConsistent P c d'
  same_lock d d' (l, o, s, p, v, e) h =
      let (f, i, j, k) = h.flags_match in
      record { flags_match = (rw (p, l, o, s) f, rw p i, rw v j, e ∙ k) }

  abbrev pub host : FileSystem → Daemon → Host
  host fs d = record { files = fs; running = d.running; masked = d.masked; reloads = d.reloads }

  abbrev pub with_flag : FilePath → Text → FileSystem → FileSystem
  with_flag p text fs = set_file p (some (written P text (fs p))) fs

  pub enter_lockdown-IsConsistent :
      {c : Config} (t : Moment) (fields : Fields) (d : Daemon)
      → IsConsistent P c d
      → IsConsistent P c (enter_lockdown P t (obj fields) d).1
  unfolding enter_lockdown
  enter_lockdown-IsConsistent t fields d h =
      let (f, i, j, k) = h.flags_match in
      let payload = flag_payload P (obj fields) (str t.now) in
      let flagged =
        with_flag lockdown_flag (codes "active\n")
          (with_flag persistent_lockdown_flag payload d.store.files) in
      record {
        flags_match = ground (
          arith,
          f,
          i,
          j,
          k,
          lock_tty-files P persistent_lockdown_flag (host flagged d) refl,
          lock_tty-files P lockdown_flag (host flagged d) refl,
        );
      }

  pub clear_lockdown-IsConsistent :
      {c : Config} (reason device : Json) (warn : Bool) (d : Daemon)
      → IsConsistent P c d
      → IsConsistent P c (clear_lockdown P reason device warn d).1
  unfolding clear_lockdown
  clear_lockdown-IsConsistent reason device warn d h =
      let (f, i, j, k) = h.flags_match in
      let once = (unlink_if_there P persistent_lockdown_flag d.store.files).1 in
      let twice = (unlink_if_there P lockdown_flag once).1 in
      record {
        flags_match = ground (
          arith,
          f,
          i,
          j,
          k,
          unlock_tty-files P persistent_lockdown_flag (host twice d) refl,
          unlock_tty-files P lockdown_flag (host twice d) refl,
        );
      }

  pub record_intrusion-same :
      (t : Moment) (kind : String) (detail : Text) (extra : Fields) (d : Daemon)
      → SameLock d (record_intrusion P t kind detail extra d)
  unfolding record_intrusion EventLog.write
  record_intrusion-same t kind detail extra d = ground arith

  pub on_tty_switch_attempt-same :
      (t : Moment) (new_tty baseline : Text) (d : Daemon)
      → SameLock d (on_tty_switch_attempt P t new_tty baseline d)
  unfolding on_tty_switch_attempt record_intrusion EventLog.write
  on_tty_switch_attempt-same t new_tty baseline d = ground arith
