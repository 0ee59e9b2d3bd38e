-- ===== src/Daemon/Dispatch/Simulated.antt =====
-- What `simulate_event` of `_handle_ipc_command` changes.
use usb_defense_system.Prelude.{◌≡◌, ◌≢◌, refl, Bool, true, false, arith, inl, inr, Bool-cases}
use usb_defense_system.Json.{lit, field, end, or_else, obj, bool, Fields, truthy}
use usb_defense_system.Exec.{Result, ok, err, continue, pure, ◌>>◌}
use usb_defense_system.Platform.{Platform}
use usb_defense_system.Daemon.State.{Daemon, Moment, broadcast}
use usb_defense_system.Daemon.Throttle.{record_auth_failure, record_auth_success}
use usb_defense_system.Daemon.Lockdown.Invariant.{enter_lockdown-entries, clear_lockdown-entries}
use usb_defense_system.Daemon.Commands.{get, as_object}
use usb_defense_system.Daemon.Commands.Access.{
  HasPassword, password_ok, password_ok_sound, check_password-eq,
}
use usb_defense_system.Daemon.Dispatch.{
  Simulation, enters, clears, inserts, other, simulation_of, simulate, simulate_authorized,
  simulate_if, do_simulate_event,
}

module _ (P : Platform) (t : Moment) where
  simulate-entries :
      (s : Simulation) (payload : Fields) (d : Daemon)
      → (simulate P t s payload d).1.store.entries ≡ d.store.entries
  simulate-entries enters payload d = enter_lockdown-entries P t _ d
  simulate-entries clears payload d = clear_lockdown-entries P _ _ _ d
  simulate-entries inserts payload d = ground (
    arith,
    clear_lockdown-entries P (lit "authorized USB (simulated) inserted") (get "device" payload)
        false (broadcast payload d),
  )
  simulate-entries other payload d = refl

  simulate_authorized-entries :
      (msg : Fields) (d : Daemon)
      → (simulate_authorized P t msg d).1.store.entries ≡ d.store.entries
  unfolding record_auth_success
  simulate_authorized-entries msg d = from (as_object (or_else (get "event" msg) (obj end)))
    where
      from :
          (r : Result Fields)
          → (continue r
              (λ payload.
                simulate P t (simulation_of (get "type" payload)) payload
                >> pure (obj (field "ok" (bool true) (field "simulated" (get "type" payload) end))))
              (record_auth_success d)).1.store.entries
            ≡ d.store.entries
      from (ok payload) = ground (
        arith,
        simulate-entries (simulation_of (get "type" payload)) payload (record_auth_success d),
      )
      from (err e) = refl

  pub do_simulate_event-eq :
      (msg : Fields) (d : Daemon)
      → truthy d.config.simulator_enabled ≡ true
      → do_simulate_event P t msg d ≡ simulate_if P t msg (password_ok P msg d.store.files) d
  unfolding do_simulate_event
  do_simulate_event-eq msg d h = rw (h, do_simulate_event) (rw (check_password-eq P msg d))

  simulate_if-refused :
      (msg : Fields) (d : Daemon)
      → ((simulate_if P t msg false d).1.locked ≡ d.locked)
        × ((simulate_if P t msg false d).1.store.entries ≡ d.store.entries)
  unfolding record_auth_failure
  simulate_if-refused msg d = ground arith

  do_simulate_event-disabled :
      (msg : Fields) (d : Daemon)
      → truthy d.config.simulator_enabled ≡ false
      → ((do_simulate_event P t msg d).1.locked ≡ d.locked)
        × ((do_simulate_event P t msg d).1.store.entries ≡ d.store.entries)
  unfolding do_simulate_event
  do_simulate_event-disabled msg d h = ground (arith, h)

  pub do_simulate_event-entries :
      (msg : Fields) (d : Daemon) → (do_simulate_event P t msg d).1.store.entries ≡ d.store.entries
  do_simulate_event-entries msg d = elim (Bool-cases (truthy d.config.simulator_enabled)) [
    | inl on ↦ rw (do_simulate_event-eq msg d on) (by_password (password_ok P msg d.store.files))
    | inr off ↦ (do_simulate_event-disabled msg d off).1
  ]
    where
      by_password : (b : Bool) → (simulate_if P t msg b d).1.store.entries ≡ d.store.entries
      by_password true = simulate_authorized-entries msg d
      by_password false = (simulate_if-refused msg d).1

  -- The simulator changes the lockdown only if it is enabled, and for the right password.
  pub do_simulate_event-credential :
      (msg : Fields) (d : Daemon)
      → (do_simulate_event P t msg d).1.locked ≢ d.locked
      → (truthy d.config.simulator_enabled ≡ true) × HasPassword P msg d.store.files
  do_simulate_event-credential msg d n = elim (Bool-cases (truthy d.config.simulator_enabled)) [
    | inl on ↦ (
      on,
      password_ok_sound P msg d.store.files
          (by_password (password_ok P msg d.store.files) (rw (do_simulate_event-eq msg d on) at n)),
    )
    | inr off ↦ absurd (n (do_simulate_event-disabled msg d off).0)
  ]
    where
      by_password : (b : Bool) → (simulate_if P t msg b d).1.locked ≢ d.locked → b ≡ true
      by_password true k = refl
      by_password false k = absurd (k (simulate_if-refused msg d).0)
