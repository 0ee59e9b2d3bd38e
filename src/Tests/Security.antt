-- ===== src/Tests/Security.antt =====
-- Witnesses for the commands and for the throttle.
use usb_defense_system.Prelude.{
  ◌≡◌, ◌<◌, refl, true, false, List, [], ◌∷◌, codes, arith, sym, ap, ◌∙◌, length, strip, text_eq,
  lower,
}
use usb_defense_system.Json.{py_eq, Json, null, lit, bool, str, obj, field, end, Fields, lookup}
use usb_defense_system.Files.{run_calls}
use usb_defense_system.Config.{default_config}
use usb_defense_system.Auth.{verify_admin_password}
use usb_defense_system.EventLog
use usb_defense_system.Whitelist
use usb_defense_system.Whitelist.{WhitelistEntry}
use usb_defense_system.Daemon.State.{Daemon, Moment}
use usb_defense_system.Daemon.Throttle.{
  check_password, record_auth_failure, record_auth_success, auth_locked_out,
}
use usb_defense_system.Daemon.Throttle.Schedule.{none_yet, guess, Guesses-slow}
use usb_defense_system.Daemon.Lockdown.{clear_lockdown, enter_lockdown}
use usb_defense_system.Daemon.Commands.{command_of, do_unlock_with_password, do_add_whitelist_entry}
use usb_defense_system.Daemon.Commands.Access.{HasPassword}
use usb_defense_system.Daemon.Dispatch.{
  perform, dispatch, handle_ipc_command, do_simulate_event, simulation_of,
}
use usb_defense_system.Daemon.Dispatch.Credentials.{
  IsAuthorized, unlock_needs_credential, whitelist_needs_password,
}
use usb_defense_system.Daemon.Dispatch.Answers.{success_needs_credential}
use usb_defense_system.Tests.Host.{
  host, with_password, password, daemon, unlocked_daemon, locked_daemon, moment, request,
}

abbrev unlock_request : Json
unlock_request = request (codes "unlock_with_password") end

unlock_needs_credential_example : IsAuthorized host moment unlock_request locked_daemon
unfolding handle_ipc_command dispatch perform do_unlock_with_password command_of lookup text_eq
    check_password verify_admin_password strip clear_lockdown record_auth_success EventLog.write
unlock_needs_credential_example =
    unlock_needs_credential host moment unlock_request locked_daemon refl refl

abbrev device_fields : Fields
device_fields = field "label" (lit "key") (field "vendor_id" (lit "1234") end)

abbrev add_fields : Fields
add_fields =
    field "cmd" (lit "add_whitelist_entry")
      (field "password" (str password) (field "entry" (obj device_fields) end))

one_more :
    length (handle_ipc_command host moment (obj add_fields) unlocked_daemon).1.store.entries ≡ 2
unfolding handle_ipc_command dispatch perform do_add_whitelist_entry command_of lookup text_eq
    check_password verify_admin_password strip Whitelist.new_entry Whitelist.add Whitelist.save
    run_calls Whitelist.save_calls record_auth_success Whitelist.added py_eq lower
one_more = refl

whitelist_needs_password_example :
    (fields : Fields) × (obj add_fields ≡ obj fields)
    × (auth_locked_out moment unlocked_daemon ≡ 0)
    × HasPassword host fields unlocked_daemon.store.files
whitelist_needs_password_example =
    whitelist_needs_password host moment (obj add_fields) unlocked_daemon (λ e.
      let k : 2 ≡ 1 = sym one_more ∙ ap (λ (es : List WhitelistEntry). length es) e in
      omega (arith, k))

abbrev simulated : Daemon
simulated =
    daemon with_password (record default_config { simulator_enabled = bool true }) false null null

abbrev simulate_fields : Fields
simulate_fields = field "cmd" (lit "simulate_event") (
    field "password" (str password)
      (field "event" (obj (field "type" (lit "lockdown_enter") end)) end))

success_needs_credential_example : IsAuthorized host moment (obj simulate_fields) simulated
unfolding handle_ipc_command dispatch perform do_simulate_event command_of lookup text_eq
    check_password verify_admin_password strip simulation_of enter_lockdown record_auth_success
success_needs_credential_example =
    success_needs_credential host moment (obj simulate_fields) simulated refl

abbrev unlock_fields : Fields
unlock_fields = field "cmd" (lit "unlock_with_password") (field "password" (str password) end)

abbrev throttled : Daemon
throttled = record locked_daemon { auth_failures = 6; auth_lockout_until = 160 }

-- The right password, twice.
abbrev sent : List (Moment × Json)
sent = (moment, obj unlock_fields) ∷ (moment, obj unlock_fields) ∷ []

abbrev failed_once : Daemon → Daemon
failed_once d = record_auth_failure host moment "verify_password" d

abbrev early : Moment
early = record { monotonic = 59; now = codes "noon"; uuid = [] }

Guesses-slow_example :
    0
    < auth_locked_out early
        (failed_once (failed_once (failed_once (failed_once (failed_once locked_daemon)))))
unfolding record_auth_failure
Guesses-slow_example =
    Guesses-slow host {d = locked_daemon} early refl
      (guess moment "verify_password"
        (guess moment "verify_password"
          (guess moment "verify_password"
            (guess moment "verify_password" (guess moment "verify_password" none_yet refl) refl)
            refl)
          refl)
        refl)
      (omega arith)
