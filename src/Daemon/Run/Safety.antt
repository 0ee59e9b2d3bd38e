-- ===== src/Daemon/Run/Safety.antt =====
-- The flag file on the disk and the lockdown in memory, over the life of a daemon.
use usb_defense_system.Prelude.{◌≡◌, Bool, true, false, List, [], ◌∷◌, arith, ltb, if◌then◌else◌}
use usb_defense_system.Json.{Json, obj, Fields, truthy}
use usb_defense_system.Exec.{ok}
use usb_defense_system.Platform.{Platform}
use usb_defense_system.Config.{Config}
use usb_defense_system.EventLog
use usb_defense_system.Daemon.State.{Daemon, Moment}
use usb_defense_system.Daemon.Lockdown.Consistency.{
  IsConsistent, SameLock, same_lock, on_tty_switch_attempt-same,
}
use usb_defense_system.Daemon.Events.Consistency.{on_usb_event-IsConsistent}
use usb_defense_system.Daemon.Commands.{
  Command, status, list_whitelist, verify_password, add_whitelist_entry, remove_whitelist_entry,
  unlock_with_password, unlock_with_seed, simulate_event, unknown, command_of, get, status_reply,
  lockout_reply,
}
use usb_defense_system.Daemon.Commands.Consistency.{
  do_verify_password-lock, do_add_whitelist_entry-lock, do_remove_whitelist_entry-lock,
  do_unlock_with_password-IsConsistent, do_unlock_with_seed-IsConsistent,
}
use usb_defense_system.Daemon.Dispatch.{
  do_simulate_event, perform, dispatch, handle_ipc_command, is_status,
}
use usb_defense_system.Daemon.Throttle.{auth_locked_out}
use usb_defense_system.Daemon.Run.{Input, usb, command, tty_switch, step, run}

do_simulate_event-lock :
    (P : Platform) (t : Moment) (msg : Fields) (d : Daemon)
    → truthy d.config.simulator_enabled ≡ false
    → SameLock d (do_simulate_event P t msg d).1
unfolding do_simulate_event EventLog.write
do_simulate_event-lock P t msg d h = ground (arith, h)

module _ (P : Platform) {c : Config} (off : truthy c.simulator_enabled ≡ false) where
  perform-IsConsistent :
      (k : Command) (t : Moment) (msg : Fields) (d : Daemon)
      → IsConsistent P c d
      → IsConsistent P c (perform P t k msg d).1
  unfolding perform
  perform-IsConsistent status t msg d h = h
  perform-IsConsistent list_whitelist t msg d h = h
  perform-IsConsistent unknown t msg d h = h
  perform-IsConsistent verify_password t msg d h =
      same_lock P d _ (do_verify_password-lock P t msg d) h
  perform-IsConsistent add_whitelist_entry t msg d h =
      same_lock P d _ (do_add_whitelist_entry-lock P t msg d) h
  perform-IsConsistent remove_whitelist_entry t msg d h =
      same_lock P d _ (do_remove_whitelist_entry-lock P t msg d) h
  perform-IsConsistent unlock_with_password t msg d h =
      do_unlock_with_password-IsConsistent P t msg d h
  perform-IsConsistent unlock_with_seed t msg d h = do_unlock_with_seed-IsConsistent P t msg d h
  perform-IsConsistent simulate_event t msg d h =
      let (f, i, j, k) = h.flags_match in
      same_lock P d _ (do_simulate_event-lock P t msg d (rw k off)) h

  dispatch-IsConsistent :
      (k : Command) (t : Moment) (msg : Fields) (d : Daemon)
      → IsConsistent P c d
      → IsConsistent P c (dispatch P t k msg d).1
  unfolding dispatch
  dispatch-IsConsistent k t msg d h = by_tests (is_status k) (ltb 0 (auth_locked_out t d))
    where
      by_tests :
          (a b : Bool)
          → IsConsistent P c
              (if a
                then (ok (status_reply t d), d)
                else if b
                then (ok (lockout_reply (get "cmd" msg) (auth_locked_out t d)), d)
                else perform P t k msg d).1
      by_tests true _ = h
      by_tests false true = h
      by_tests false false = perform-IsConsistent k t msg d h

  handle-IsConsistent :
      (t : Moment) (msg : Json) (d : Daemon)
      → IsConsistent P c d
      → IsConsistent P c (handle_ipc_command P t msg d).1
  unfolding handle_ipc_command
  handle-IsConsistent t (obj fields) d h =
      dispatch-IsConsistent (command_of (get "cmd" fields)) t fields d h
  handle-IsConsistent t _ d h = h

  pub step-IsConsistent :
      (i : Input) (d : Daemon) → IsConsistent P c d → IsConsistent P c (step P i d)
  unfolding step
  step-IsConsistent (usb t tool e) d h = on_usb_event-IsConsistent P t tool e d h
  step-IsConsistent (command t msg) d h = handle-IsConsistent t msg d h
  step-IsConsistent (tty_switch t new_tty baseline) d h =
      same_lock P d _ (on_tty_switch_attempt-same P t new_tty baseline d) h

  -- From a daemon whose persistent flag agrees with its memory and whose flag files are not
  -- immutable, under a configuration with the simulator disabled: after every sequence of USB events,
  -- client commands and console switches this is still so. The flag holds the offender and the start
  -- of the lockdown in memory, and is missing when there is none.
  pub run-IsConsistent :
      (is : List Input) (d : Daemon) → IsConsistent P c d → IsConsistent P c (run P is d)
  unfolding run
  run-IsConsistent [] d h = h
  run-IsConsistent (i ∷ is) d h = run-IsConsistent is (step P i d) (step-IsConsistent i d h)
