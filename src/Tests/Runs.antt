-- ===== src/Tests/Runs.antt =====
-- Sequences of inputs of a daemon.
use usb_defense_system.Prelude.{
  ◌≡◌, refl, true, false, none, some, arith, [], ◌∷◌, codes, text_eq, lower, strip,
}
use usb_defense_system.Json.{lit, str, obj, field, end, Fields, lookup, py_eq}
use usb_defense_system.Exec.{ok}
use usb_defense_system.Config.{default_config}
use usb_defense_system.EventLog
use usb_defense_system.Files.{set_file, persistent_lockdown_flag}
use usb_defense_system.Files.Content.{content_at}
use usb_defense_system.Auth.{verify_admin_password}
use usb_defense_system.Whitelist.{match_entry}
use usb_defense_system.Usbguard.{find_by_fingerprint, list_devices}
use usb_defense_system.Daemon.State.{Daemon}
use usb_defense_system.Daemon.Lockdown.{enter_lockdown, clear_lockdown, record_intrusion}
use usb_defense_system.Daemon.Throttle.{check_password, record_auth_success, record_auth_failure}
use usb_defense_system.Daemon.Events.{on_usb_event, set_in_usbguard}
use usb_defense_system.Daemon.Commands.{command_of, reply, do_unlock_with_password}
use usb_defense_system.Daemon.Commands.Access.{password_ok}
use usb_defense_system.TtyLockdown.{lock_tty, mask_units}
use usb_defense_system.Daemon.Dispatch.{handle_ipc_command, dispatch, perform}
use usb_defense_system.Daemon.Run.{Input, usb, command, step, run}
use usb_defense_system.Daemon.Run.Moves.{Move, IsFreed, step-Move, run-IsFreed}
use usb_defense_system.Daemon.Run.Unlockable.{run-unlockable}
use usb_defense_system.Ipc.{split_line, cut_lines, cut_while}
use usb_defense_system.Ipc.Lines.{cut_while-eq}
use usb_defense_system.Ipc.Server.{Peer}
use usb_defense_system.Daemon.Service.{Service, serve_all}
use usb_defense_system.Daemon.Service.Delivery.{with_events, IsClient, serve_all-IsClient}
use usb_defense_system.Tests.Host.{
  host, password, with_password, private_file, daemon, offending, unlocked_daemon, moment, plugged,
  quiet,
}

abbrev stranger : Input
stranger = usb moment quiet (plugged (codes "ZZ"))

step-Move_example :
    Move host unlocked_daemon stranger false (step host stranger unlocked_daemon).locked
step-Move_example = step-Move host stranger unlocked_daemon refl

abbrev unlock_fields : Fields
unlock_fields =
    field "cmd" (str (codes "unlock_with_password")) (field "password" (str password) end)

-- A wrong password while an unknown stick has locked the system.
abbrev guess : Input
guess = command moment (
    obj (
      field "cmd" (str (codes "unlock_with_password"))
        (field "password" (str (codes "guess")) end)))

run-unlockable_example :
    let held = run host (stranger ∷ guess ∷ []) unlocked_daemon in
    let (r, freed) = handle_ipc_command host moment (obj unlock_fields) held in
    (r ≡ ok (reply "unlock_with_password" true))
    × (freed.locked ≡ false)
    × (freed.auth_failures ≡ 0)
    × (content_at freed.store.files persistent_lockdown_flag ≡ none)
unfolding run step on_usb_event match_entry py_eq lower set_in_usbguard find_by_fingerprint
    list_devices enter_lockdown EventLog.write handle_ipc_command dispatch perform
    do_unlock_with_password command_of lookup text_eq check_password verify_admin_password strip
    record_auth_failure record_intrusion password_ok lock_tty mask_units
run-unlockable_example =
    run-unlockable host {c = default_config} refl (stranger ∷ guess ∷ []) unlocked_daemon moment
      unlock_fields (record { flags_match = (refl, refl, refl, refl) }) refl refl (omega arith)

-- A locked daemon with its flag.
abbrev held_daemon : Daemon
held_daemon =
    daemon (set_file persistent_lockdown_flag (some (private_file (codes "{}\n"))) with_password)
      default_config true (obj offending) (lit "noon")

run-IsFreed_example : IsFreed host (guess ∷ command moment (obj unlock_fields) ∷ []) held_daemon
unfolding run step EventLog.write handle_ipc_command dispatch perform do_unlock_with_password
    command_of lookup text_eq check_password verify_admin_password strip record_auth_failure
    record_intrusion clear_lockdown record_auth_success
run-IsFreed_example =
    run-IsFreed host {c = default_config} refl (guess ∷ command moment (obj unlock_fields) ∷ [])
      held_daemon (record { flags_match = (refl, refl, refl, refl) }) refl refl

-- Two clients, of which the first is gone.
abbrev client : Peer
client = record { number = 4; reachable = true; received = codes "hello\n" ∷ [] }

abbrev service : Service
service = record {
  daemon = unlocked_daemon;
  server = record {
    socket_file = none;
    listening = true;
    stopped = false;
    clients = record { number = 3; reachable = false; received = [] } ∷ client ∷ [];
    closed = [];
  };
  monitoring = true;
  running = true;
}

serve_all-IsClient_example :
    let s = serve_all host (stranger ∷ []) service in
    (s.daemon ≡ run host (stranger ∷ []) unlocked_daemon)
    × IsClient host 4
        (with_events host (run host (stranger ∷ []) unlocked_daemon).broadcasts client)
        s.server
serve_all-IsClient_example =
    serve_all-IsClient host {c = default_config} refl (stranger ∷ [])
      (run host (stranger ∷ []) unlocked_daemon).broadcasts 4 client service
      (record { flags_match = (refl, refl, refl, refl) })
      (record { distinct = (refl, (refl, tt)); found = refl; reachable = refl }) refl

cut_while-eq_example :
    (cut_while 5 (codes "a\nb\nc") ≡ cut_lines (codes "a\nb\nc"))
    × (split_line (cut_while 5 (codes "a\nb\nc")).1 ≡ none)
cut_while-eq_example = cut_while-eq 5 (codes "a\nb\nc") (omega arith)
