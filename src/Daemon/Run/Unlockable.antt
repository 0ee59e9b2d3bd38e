-- ===== src/Daemon/Run/Unlockable.antt =====
-- That the right password ends a lockdown, whatever happened before.
use usb_defense_system.Prelude.{String, ◌≡◌, refl, ◌≤◌, ◌-◌, Bool, true, false, none, List, arith}
use usb_defense_system.Json.{Json, null, obj, Fields, truthy, field, lit, end}
use usb_defense_system.Exec.{ok}
use usb_defense_system.Platform.{Platform}
use usb_defense_system.Config.{Config}
use usb_defense_system.EventLog
use usb_defense_system.Files.{persistent_lockdown_flag}
use usb_defense_system.Files.Content.{content_at}
use usb_defense_system.Daemon.State.{Daemon, Moment, log_event}
use usb_defense_system.Daemon.Lockdown.{clear_lockdown}
use usb_defense_system.Daemon.Lockdown.Consistency.{IsConsistent, SameLock, same_lock}
use usb_defense_system.Daemon.Throttle.{record_auth_success}
use usb_defense_system.Daemon.Commands.{
  unlock_with_password, command_of, get, reply, do_unlock_with_password, successful_unlock,
}
use usb_defense_system.Daemon.Commands.Access.{password_ok, check_password-eq}
use usb_defense_system.Daemon.Commands.Consistency.{do_unlock_with_password-IsConsistent}
use usb_defense_system.Daemon.Dispatch.{handle_ipc_command, dispatch, perform}
use usb_defense_system.Daemon.Run.{Input, run}
use usb_defense_system.Daemon.Run.Safety.{run-IsConsistent}

module _ (P : Platform) where
  clear_lockdown-ends :
      {c : Config} (reason device : Json) (warn : Bool) (d : Daemon)
      → IsConsistent P c d
      → let (r, d') = clear_lockdown P reason device warn d in
        (r ≡ ok tt) × (d'.locked ≡ false) × (d'.auth_failures ≡ d.auth_failures)
  unfolding clear_lockdown
  clear_lockdown-ends reason device warn d h =
      let (f, i, j, k) = h.flags_match in ground (arith, i, j)

  module _ (t : Moment) (msg : Fields) where
    successful_unlock-ends :
        {c : Config} (op method reason : String) (warn : Bool) (d : Daemon)
        → IsConsistent P c d
        → let (r, d') = successful_unlock P t op method reason warn d in
          (r ≡ ok (reply op true)) × (d'.locked ≡ false) × (d'.auth_failures ≡ 0)
    unfolding record_auth_success EventLog.write
    successful_unlock-ends op method reason warn d h =
        let ready =
          log_event P t "UNLOCK_SUCCESS" (field "method" (lit method) end)
            (record_auth_success d) in
        let same : SameLock d ready = ground arith in
        ground
          (arith, clear_lockdown-ends (lit reason) null warn ready (same_lock P d ready same h))

    do_unlock_with_password-accepted :
        {c : Config} (d : Daemon)
        → IsConsistent P c d
        → password_ok P msg d.store.files ≡ true
        → let (r, d') = do_unlock_with_password P t msg d in
          (r ≡ ok (reply "unlock_with_password" true))
          × (d'.locked ≡ false)
          × (d'.auth_failures ≡ 0)
    unfolding do_unlock_with_password
    do_unlock_with_password-accepted d h right =
        rw (check_password-eq P msg d, right)
          (successful_unlock-ends "unlock_with_password" "password" "admin password" false d h)

    dispatched :
        (d : Daemon)
        → command_of (get "cmd" msg) ≡ unlock_with_password
        → d.auth_lockout_until ≤ t.monotonic
        → handle_ipc_command P t (obj msg) d ≡ do_unlock_with_password P t msg d
    unfolding handle_ipc_command dispatch perform
    dispatched d k late =
        let e : d.auth_lockout_until - t.monotonic ≡ 0 = omega arith in rw (k, e) refl

module _ (P : Platform) {c : Config} (off : truthy c.simulator_enabled ≡ false) where
  -- With the simulator disabled, whatever inputs a daemon has handled, wrong passwords included: a
  -- message `unlock_with_password` with the right password, sent once the lockout of the throttle is
  -- over, is answered with success and leaves the system unlocked, with no persistent flag on the disk
  -- and no failed attempts counted. (At the start the flag files agreed with the memory and were not
  -- immutable.)
  pub run-unlockable :
      (inputs : List Input) (d : Daemon) (t : Moment) (msg : Fields)
      → IsConsistent P c d
      → let held = run P inputs d in
        command_of (get "cmd" msg) ≡ unlock_with_password
        → password_ok P msg held.store.files ≡ true
        → held.auth_lockout_until ≤ t.monotonic
        → let (r, freed) = handle_ipc_command P t (obj msg) held in
          (r ≡ ok (reply "unlock_with_password" true))
          × (freed.locked ≡ false)
          × (freed.auth_failures ≡ 0)
          × (content_at freed.store.files persistent_lockdown_flag ≡ none)
  run-unlockable inputs d t msg h k right late =
      let held = run P inputs d in
      let ready = run-IsConsistent P off inputs d h in
      let (r, l, n) = do_unlock_with_password-accepted P t msg held ready right in
      let (f, i, j, e) = (do_unlock_with_password-IsConsistent P t msg held ready).flags_match in
      rw (dispatched P t msg held k late) (r, l, n, ground (arith, f, l))
