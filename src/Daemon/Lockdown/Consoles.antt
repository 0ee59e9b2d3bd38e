-- ===== src/Daemon/Lockdown/Consoles.antt =====
-- The text consoles after `_enter_lockdown`.
use usb_defense_system.Prelude.{◌≡◌, true, false, codes, arith}
use usb_defense_system.Json.{obj, str, Fields}
use usb_defense_system.Exec.{ok}
use usb_defense_system.Platform.{Platform}
use usb_defense_system.Files.{persistent_lockdown_flag, lockdown_flag}
use usb_defense_system.Config.{Config}
use usb_defense_system.TtyLockdown.{TtyUnit, start_watcher}
use usb_defense_system.TtyLockdown.Masks.{is_console, lock_tty-masked}
use usb_defense_system.Daemon.State.{Daemon, Moment}
use usb_defense_system.Daemon.Lockdown.{enter_lockdown, flag_payload, trigger_screen_lock}
use usb_defense_system.Daemon.Lockdown.Consistency.{IsConsistent, host, with_flag}

module _ (P : Platform) where
  -- Where systemctl works and the flag files are consistent, entering a lockdown for an offender
  -- that is an object ends without an error, with the system locked for that offender, the console
  -- watcher running, and every console unit (getty and autovt on tty1 to tty6) masked and
  -- stopped.
  pub enter_lockdown-consoles :
      {c : Config} (t : Moment) (fields : Fields) (d : Daemon) (v : TtyUnit)
      → IsConsistent P c d
      → P.systemctl_ok ≡ true
      → d.locked ≡ false
      → is_console v ≡ true
      → let (r, d') = enter_lockdown P t (obj fields) d in
        (r ≡ ok tt)
        × (d'.locked ≡ true)
        × (d'.lock_offender ≡ obj fields)
        × (d'.watcher.alive ≡ true)
        × (d'.masked v ≡ true)
        × (d'.running v ≡ false)
  unfolding enter_lockdown trigger_screen_lock start_watcher
  enter_lockdown-consoles t fields d v h works l u =
      let (f, i, j, k) = h.flags_match in
      let payload = flag_payload P (obj fields) (str t.now) in
      let flagged =
        with_flag P lockdown_flag (codes "active\n")
          (with_flag P persistent_lockdown_flag payload d.store.files) in
      let (m, r) = lock_tty-masked P (host P flagged d) v works in
      ground (arith, i, j, l, u, works, m, r)
