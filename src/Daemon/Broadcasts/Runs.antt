-- ===== src/Daemon/Broadcasts/Runs.antt =====
-- Every sequence of inputs of a daemon whose simulator is disabled.
use usb_defense_system.Prelude.{
  ◌≡◌, Bool, true, false, List, [], ◌∷◌, ◌++◌, sym, ap, ◌∙◌, arith, ltb, if◌then◌else◌,
}
use usb_defense_system.Json.{Json, obj, Fields, truthy}
use usb_defense_system.Exec.{ok}
use usb_defense_system.Platform.{Platform}
use usb_defense_system.Config.{Config}
use usb_defense_system.Daemon.State.{Daemon, Moment}
use usb_defense_system.Daemon.Lockdown.Consistency.{IsConsistent}
use usb_defense_system.Daemon.Commands.{
  Command, status, list_whitelist, verify_password, add_whitelist_entry, remove_whitelist_entry,
  unlock_with_password, unlock_with_seed, simulate_event, unknown, command_of, get, status_reply,
  lockout_reply,
}
use usb_defense_system.Daemon.Dispatch.{
  do_simulate_event, perform, dispatch, handle_ipc_command, is_status,
}
use usb_defense_system.Daemon.Throttle.{auth_locked_out}
use usb_defense_system.Daemon.Run.{Input, usb, command, tty_switch, step, run}
use usb_defense_system.Daemon.Run.Safety.{step-IsConsistent}
use usb_defense_system.Daemon.Broadcasts.{IsTold, silent, told, now-IsTold}
use usb_defense_system.Daemon.Broadcasts.Lockdown.{on_tty_switch_attempt-IsTold}
use usb_defense_system.Daemon.Broadcasts.Devices.{on_usb_event-IsTold}
use usb_defense_system.Daemon.Broadcasts.Whitelisting.{
  do_verify_password-IsTold, do_add_whitelist_entry-IsTold, do_remove_whitelist_entry-IsTold,
}
use usb_defense_system.Daemon.Broadcasts.Unlocking.{
  do_unlock_with_password-IsTold, do_unlock_with_seed-IsTold,
}

pub append-cancel : (xs ys zs : List Json) → xs ++ ys ≡ xs ++ zs → ys ≡ zs
append-cancel [] ys zs e = e
append-cancel (x ∷ xs) ys zs e = append-cancel xs ys zs (ground (arith, e))

do_simulate_event-IsTold :
    (P : Platform) {past : List Json} {b : Bool} (t : Moment) (msg : Fields) (d : Daemon)
    → truthy d.config.simulator_enabled ≡ false
    → IsTold past b d
    → IsTold past b (do_simulate_event P t msg d).1
unfolding do_simulate_event
do_simulate_event-IsTold P t msg d h =
    silent d (do_simulate_event P t msg d).1 (ground (arith, h)) (ground (arith, h))

module _ (P : Platform) {c : Config} (off : truthy c.simulator_enabled ≡ false) {past : List Json}
    {b : Bool} where
  perform-IsTold :
      (k : Command) (t : Moment) (msg : Fields) (d : Daemon)
      → IsConsistent P c d
      → IsTold past b d
      → IsTold past b (perform P t k msg d).1
  unfolding perform
  perform-IsTold status t msg d h s = s
  perform-IsTold list_whitelist t msg d h s = s
  perform-IsTold unknown t msg d h s = s
  perform-IsTold verify_password t msg d h s = do_verify_password-IsTold P t msg d s
  perform-IsTold add_whitelist_entry t msg d h s = do_add_whitelist_entry-IsTold P t msg d s
  perform-IsTold remove_whitelist_entry t msg d h s = do_remove_whitelist_entry-IsTold P t msg d s
  perform-IsTold unlock_with_password t msg d h s = do_unlock_with_password-IsTold P t msg d h s
  perform-IsTold unlock_with_seed t msg d h s = do_unlock_with_seed-IsTold P t msg d h s
  perform-IsTold simulate_event t msg d h s =
      let (f, i, j, k) = h.flags_match in do_simulate_event-IsTold P t msg d (rw k off) s

  dispatch-IsTold :
      (k : Command) (t : Moment) (msg : Fields) (d : Daemon)
      → IsConsistent P c d
      → IsTold past b d
      → IsTold past b (dispatch P t k msg d).1
  unfolding dispatch
  dispatch-IsTold k t msg d h s = by_tests (is_status k) (ltb 0 (auth_locked_out t d))
    where
      by_tests :
          (asks waits : Bool)
          → IsTold past b
              (if asks
                then (ok (status_reply t d), d)
                else if waits
                then (ok (lockout_reply (get "cmd" msg) (auth_locked_out t d)), d)
                else perform P t k msg d).1
      by_tests true _ = s
      by_tests false true = s
      by_tests false false = perform-IsTold k t msg d h s

  handle-IsTold :
      (t : Moment) (msg : Json) (d : Daemon)
      → IsConsistent P c d
      → IsTold past b d
      → IsTold past b (handle_ipc_command P t msg d).1
  unfolding handle_ipc_command
  handle-IsTold t (obj fields) d h s =
      dispatch-IsTold (command_of (get "cmd" fields)) t fields d h s
  handle-IsTold t _ d h s = s

  pub step-IsTold :
      (i : Input) (d : Daemon) → IsConsistent P c d → IsTold past b d → IsTold past b (step P i d)
  unfolding step
  step-IsTold (usb t tool e) d h s = on_usb_event-IsTold P t tool e d h s
  step-IsTold (command t msg) d h s = handle-IsTold t msg d h s
  step-IsTold (tty_switch t new_tty baseline) d h s =
      on_tty_switch_attempt-IsTold P t new_tty baseline d s

  pub run-IsTold :
      (is : List Input) (d : Daemon)
      → IsConsistent P c d
      → IsTold past b d
      → IsTold past b (run P is d)
  unfolding run
  run-IsTold [] d h s = s
  run-IsTold (i ∷ is) d h s =
      run-IsTold is (step P i d) (step-IsConsistent P off i d h) (step-IsTold i d h s)

-- What was broadcast meanwhile tells whether the daemon is locked now, from whether it was before.
pub run-told :
    (P : Platform) {c : Config} (inputs : List Input) (events : List Json) (d : Daemon)
    → truthy c.simulator_enabled ≡ false
    → IsConsistent P c d
    → (run P inputs d).broadcasts ≡ d.broadcasts ++ events
    → told d.locked events ≡ (run P inputs d).locked
run-told P inputs events d off h e =
    let s = run-IsTold P off inputs d h (now-IsTold d) in
    ap (told d.locked) (append-cancel d.broadcasts events s.since (sym e ∙ s.grown)) ∙ s.told_locked
