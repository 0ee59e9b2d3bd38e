-- ===== src/Daemon/Lockdown/Invariant.antt =====
-- What `_enter_lockdown` and `_clear_lockdown` leave alone.
use usb_defense_system.Prelude.{◌≡◌, Bool, arith}
use usb_defense_system.Json.{Json}
use usb_defense_system.Platform.{Platform}
use usb_defense_system.Daemon.State.{Daemon, Moment}
use usb_defense_system.Daemon.Lockdown.{enter_lockdown, clear_lockdown, trigger_screen_lock}

module _ (P : Platform) where
  pub enter_lockdown-entries :
      (t : Moment) (offender : Json) (d : Daemon)
      → (enter_lockdown P t offender d).1.store.entries ≡ d.store.entries
  unfolding enter_lockdown
  enter_lockdown-entries t offender d = ground arith

  pub clear_lockdown-entries :
      (reason device : Json) (warn : Bool) (d : Daemon)
      → (clear_lockdown P reason device warn d).1.store.entries ≡ d.store.entries
  unfolding clear_lockdown
  clear_lockdown-entries reason device warn d = ground arith

  pub enter_lockdown-policies :
      (t : Moment) (offender : Json) (d : Daemon)
      → (enter_lockdown P t offender d).1.policies ≡ d.policies
  unfolding enter_lockdown trigger_screen_lock
  enter_lockdown-policies t offender d = ground arith
