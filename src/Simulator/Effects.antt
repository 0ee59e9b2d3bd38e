-- ===== src/Simulator/Effects.antt =====
-- What the daemon makes of the events of the simulator.
use usb_defense_system.Prelude.{
  ◌≡◌, refl, Bool, true, false, not, ◌&&◌, ◌||◌, Option, some, List, [], ◌∷◌, Text, text_eq,
  text_eq_refl, ◌≤◌, ◌-◌, arith,
}
use usb_defense_system.Json.{Json, null, obj, lit, lookup, truthy, Fields}
use usb_defense_system.Exec.{ok}
use usb_defense_system.Platform.{Platform}
use usb_defense_system.Files.{FileSystem}
use usb_defense_system.Auth.{verify_admin_password}
use usb_defense_system.Daemon.State.{Daemon, Moment, broadcast}
use usb_defense_system.Daemon.Throttle.{record_auth_success}
use usb_defense_system.Daemon.Lockdown.{enter_lockdown, clear_lockdown}
use usb_defense_system.Daemon.Commands.{command_of, get}
use usb_defense_system.Daemon.Commands.Access.{password_ok}
use usb_defense_system.Daemon.Dispatch.{
  handle_ipc_command, dispatch, perform, do_simulate_event, simulate, simulate_authorized,
  simulation_of, inserts,
}
use usb_defense_system.Daemon.Dispatch.Simulated.{do_simulate_event-eq}
use usb_defense_system.Simulator.{
  Scenario, unauthorized, lockdown, unlock, authorized_key, authorized, authorized_normal, badusb,
  badusb_lockdown, evil_storage, badusb_hid, payload, scenario_of, connected, password_of, envelope,
  line, main,
}

-- Whether the system is locked after the event of a scenario.
abbrev pub locked_after : Scenario → Daemon → Bool
locked_after unauthorized d = d.locked
locked_after lockdown d = true
locked_after unlock d = false
locked_after authorized_key d = false
locked_after authorized d = false
locked_after authorized_normal d = d.locked && truthy d.config.require_unlock_key
locked_after badusb d = d.locked
locked_after badusb_lockdown d = true

module _ (P : Platform) (t : Moment) where
  enter_lockdown-locks :
      (offender : Fields) (d : Daemon) → (enter_lockdown P t (obj offender) d).1.locked ≡ true
  unfolding enter_lockdown
  enter_lockdown-locks offender d = ground arith

  clear_lockdown-unlocks :
      (reason device : Json) (warn : Bool) (d : Daemon)
      → (clear_lockdown P reason device warn d).1.locked ≡ false
  unfolding clear_lockdown
  clear_lockdown-unlocks reason device warn d = ground arith

  abbrev inserted : Fields → Daemon → Bool
  inserted event d = (simulate P t inserts event d).1.locked

  simulated_insert-locked :
      (event : Fields) (d : Daemon)
      → inserted event d ≡ (
          d.locked
          && not (truthy (get "can_unlock" event) || not (truthy d.config.require_unlock_key)))
  simulated_insert-locked event d = ground (
    arith,
    clear_lockdown-unlocks (lit "authorized USB (simulated) inserted") (get "device" event) false
        (broadcast event d),
  )

  simulate_authorized-locked :
      (s : Scenario) (password : Text) (d : Daemon)
      → (simulate_authorized P t (envelope (payload s) password) d).1.locked ≡ locked_after s d
  unfolding record_auth_success lookup payload simulation_of text_eq
  simulate_authorized-locked unauthorized password d = refl
  simulate_authorized-locked lockdown password d =
      ground (arith, enter_lockdown-locks evil_storage (record_auth_success d))
  simulate_authorized-locked unlock password d =
      ground
        (arith, clear_lockdown-unlocks (lit "test simulation") null false (record_auth_success d))
  simulate_authorized-locked authorized_key password d =
      ground (arith, simulated_insert-locked (payload authorized_key) (record_auth_success d))
  simulate_authorized-locked authorized password d =
      ground (arith, simulated_insert-locked (payload authorized) (record_auth_success d))
  simulate_authorized-locked authorized_normal password d =
      ground (arith, simulated_insert-locked (payload authorized_normal) (record_auth_success d))
  simulate_authorized-locked badusb password d = refl
  simulate_authorized-locked badusb_lockdown password d =
      ground (arith, enter_lockdown-locks badusb_hid (record_auth_success d))

  handle_ipc_command-envelope :
      (event : Fields) (password : Text) (d : Daemon)
      → d.auth_lockout_until ≤ t.monotonic
      → handle_ipc_command P t (obj (envelope event password)) d
        ≡ do_simulate_event P t (envelope event password) d
  unfolding handle_ipc_command dispatch perform lookup command_of text_eq
  handle_ipc_command-envelope event password d late =
      let e : d.auth_lockout_until - t.monotonic ≡ 0 = omega arith in rw e refl

  password_ok-envelope :
      (event : Fields) (password : Text) (fs : FileSystem)
      → not (text_eq password []) ≡ true
      → verify_admin_password P password fs ≡ (ok true, fs)
      → password_ok P (envelope event password) fs ≡ true
  unfolding password_ok lookup
  password_ok-envelope event [] fs n h = absurd (cc (text_eq_refl []))
  password_ok-envelope event (c ∷ s) fs n h = rw h refl

  do_simulate_event-locked :
      (s : Scenario) (password : Text) (d : Daemon)
      → truthy d.config.simulator_enabled ≡ true
      → password_ok P (envelope (payload s) password) d.store.files ≡ true
      → (do_simulate_event P t (envelope (payload s) password) d).1.locked ≡ locked_after s d
  do_simulate_event-locked s password d on right =
      rw (do_simulate_event-eq P t (envelope (payload s) password) d on, right)
        (simulate_authorized-locked s password d)

  -- A scenario is named on the command line, the connection works, the password of the environment
  -- (or else of the prompt) is not empty and right, the daemon's simulator is enabled, and the lockout
  -- of the throttle is over. `main` then sends one message and returns 0. After the daemon has handled
  -- that message, the system is locked for the two scenarios of a lockdown, and not locked for `unlock`
  -- and for an authorized device that may unlock; for an authorized device that may not, it is locked if
  -- it was and the configuration requires an unlock key; and for the scenarios of an unauthorized
  -- device, the simulated BadUSB among them, it is locked if it was.
  pub main-locked :
      (name : Text) (more : List Text) (env : Option Text) (typed : Text) (s : Scenario)
      (d : Daemon)
      → scenario_of name ≡ some s
      → not (text_eq (password_of env typed) []) ≡ true
      → verify_admin_password P (password_of env typed) d.store.files ≡ (ok true, d.store.files)
      → truthy d.config.simulator_enabled ≡ true
      → d.auth_lockout_until ≤ t.monotonic
      → let msg = envelope (payload s) (password_of env typed) in
        (main P (name ∷ more) connected true env typed ≡ (ok 0, line P msg ∷ []))
        × ((handle_ipc_command P t (obj msg) d).1.locked ≡ locked_after s d)
  unfolding main
  main-locked name more env typed s d e n right on late =
      let password = password_of env typed in
      (
        rw e refl,
        rw (handle_ipc_command-envelope (payload s) password d late) (
            do_simulate_event-locked s password d on
              (password_ok-envelope (payload s) password d.store.files n right)),
      )
