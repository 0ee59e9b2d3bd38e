-- ===== src/Daemon/Dispatch/Throttled.antt =====
-- `_handle_ipc_command` during a lockout.
use usb_defense_system.Prelude.{◌≡◌, ◌<◌, arith, if◌then◌else◌}
use usb_defense_system.Json.{obj, Fields}
use usb_defense_system.Exec.{ok}
use usb_defense_system.Platform.{Platform}
use usb_defense_system.Daemon.State.{Daemon, Moment}
use usb_defense_system.Daemon.Throttle.{auth_locked_out}
use usb_defense_system.Daemon.Commands.{command_of, get, status_reply, lockout_reply}
use usb_defense_system.Daemon.Dispatch.{is_status, handle_ipc_command}

module _ (P : Platform) (t : Moment) where
  -- While seconds of a lockout remain, every message that is an object is answered without any
  -- change of state: `status` by the status, and every other command, known or not and with
  -- whatever credential, by `auth_locked_out` with the seconds that remain.
  pub lockout_refuses :
      (fields : Fields) (d : Daemon)
      → 0 < auth_locked_out t d
      → handle_ipc_command P t (obj fields) d ≡ (
        ok (
            if is_status (command_of (get "cmd" fields))
            then status_reply t d
            else lockout_reply (get "cmd" fields) (auth_locked_out t d)),
        d,
      )
  unfolding handle_ipc_command
  lockout_refuses fields d h = ground arith
