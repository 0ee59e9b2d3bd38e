-- ===== src/Daemon/Dispatch.antt =====
-- `_handle_ipc_command`: the simulator command, and the dispatch of every command behind the
-- throttle.
pub mod Throttled
pub mod Simulated
pub mod Credentials
pub mod Answers
use usb_defense_system.Prelude.{
  ℕ, Bool, true, false, not, ◌&&◌, ◌||◌, String, List, [], ◌∷◌, ◌++◌, if◌then◌else◌, Text, codes,
  text_eq, ltb, map,
}
use usb_defense_system.Json.{
  Json, null, bool, str, obj, arr, lit, field, end, Fields, truthy, or_else, to_items,
}
use usb_defense_system.Exec.{Result, ok, err, Exec, pure, lift, modify, gets, when, ◌>>=◌, ◌>>◌}
use usb_defense_system.Platform.{Platform}
use usb_defense_system.Whitelist.{asdict}
use usb_defense_system.Daemon.State.{Daemon, Moment, broadcast, log_event}
use usb_defense_system.Daemon.Throttle.{check_password, auth_locked_out, record_auth_success}
use usb_defense_system.Daemon.Lockdown.{enter_lockdown, clear_lockdown}
use usb_defense_system.Daemon.Commands.{
  Command, status, list_whitelist, verify_password, add_whitelist_entry, remove_whitelist_entry,
  unlock_with_password, unlock_with_seed, simulate_event, unknown, command_of, get, as_object,
  unauthorized, status_reply, lockout_reply, do_verify_password, do_add_whitelist_entry,
  do_remove_whitelist_entry, do_unlock_with_password, do_unlock_with_seed,
}

pub data Simulation : Type 0 where
  enters clears inserts other : Simulation

simulation_text : Text → Simulation
simulation_text s =
    if text_eq s (codes "lockdown_enter")
    then enters
    else if text_eq s (codes "lockdown_clear")
    then clears
    else if text_eq s (codes "authorized_insert")
    then inserts
    else other

-- The comparisons of `payload.get("type")`.
unfoldable pub simulation_of : Json → Simulation
unfolding simulation_text
simulation_of (str s) = simulation_text s
simulation_of _ = other

abbrev pub is_status : Command → Bool
is_status status = true
is_status _ = false

module _ (P : Platform) (t : Moment) where
  abbrev simulated_insert : Fields → Exec Daemon (Unit {0})
  simulated_insert payload = do
    modify (broadcast payload)
    frees ← gets (λ d.
        d.locked && (truthy (get "can_unlock" payload) || not (truthy d.config.require_unlock_key)))
    when frees
        (clear_lockdown P (lit "authorized USB (simulated) inserted") (get "device" payload) false)

  abbrev pub simulate : Simulation → Fields → Exec Daemon (Unit {0})
  simulate enters payload = enter_lockdown P t (or_else (get "offender" payload) (obj end))
  simulate clears payload =
      clear_lockdown P (or_else (get "reason" payload) (lit "simulated unlock")) null false
  simulate inserts payload = simulated_insert payload
  simulate other payload = modify (broadcast payload)

  abbrev pub simulate_authorized : Fields → Exec Daemon Json
  simulate_authorized msg = do
    modify record_auth_success
    payload ← lift (as_object (or_else (get "event" msg) (obj end)))
    simulate (simulation_of (get "type" payload)) payload
    pure (obj (field "ok" (bool true) (field "simulated" (get "type" payload) end)))

  abbrev pub simulate_if : Fields → Bool → Exec Daemon Json
  simulate_if msg false = unauthorized P t "simulate_event"
  simulate_if msg true = simulate_authorized msg

  abbrev pub simulate_enabled : Fields → Bool → Exec Daemon Json
  simulate_enabled msg false = do
    modify (log_event P t "SIMULATOR_BLOCKED" (field "reason" (lit "disabled in config") end))
    pure (obj (field "error" (lit "simulator disabled by config") end))
  simulate_enabled msg true = do right ← check_password P msg; simulate_if msg right

  unfoldable pub do_simulate_event : Fields → Exec Daemon Json
  do_simulate_event msg d = simulate_enabled msg (truthy d.config.simulator_enabled) d

  abbrev list_reply : Daemon → Json
  list_reply d = obj (
      field "type" (lit "whitelist_list")
        (field "entries" (arr (to_items (map asdict d.store.entries))) end))

  -- The commands below the throttle.
  unfoldable pub perform : Command → Fields → Exec Daemon Json
  perform status msg = gets (status_reply t)
  perform list_whitelist msg = gets list_reply
  perform verify_password msg = do_verify_password P t msg
  perform add_whitelist_entry msg = do_add_whitelist_entry P t msg
  perform remove_whitelist_entry msg = do_remove_whitelist_entry P t msg
  perform unlock_with_password msg = do_unlock_with_password P t msg
  perform unlock_with_seed msg = do_unlock_with_seed P t msg
  perform simulate_event msg = do_simulate_event msg
  perform unknown msg =
      pure (obj (field "error" (str (codes "unknown command: " ++ P.show (get "cmd" msg))) end))

  unfoldable pub dispatch : Command → Fields → Exec Daemon Json
  unfolding perform
  dispatch c msg d =
      if is_status c
      then (ok (status_reply t d), d)
      else if ltb 0 (auth_locked_out t d)
      then (ok (lockout_reply (get "cmd" msg) (auth_locked_out t d)), d)
      else perform c msg d

  -- `_handle_ipc_command`
  unfoldable pub handle_ipc_command : Json → Exec Daemon Json
  unfolding dispatch
  handle_ipc_command msg = do
    fields ← lift (as_object msg)
    dispatch (command_of (get "cmd" fields)) fields
