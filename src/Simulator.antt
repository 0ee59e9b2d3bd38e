-- ===== src/Simulator.antt =====
-- usbguard_defense/tests/simulate.py: a command line client that sends the event of a demonstration to
-- the daemon.
pub mod Effects
use usb_defense_system.Prelude.{
  ℕ, Bool, true, false, Option, none, some, List, [], ◌∷◌, ◌++◌, if◌then◌else◌, Text, codes,
  text_eq, ◌*◌, ◌^◌,
}
use usb_defense_system.Json.{Json, obj, str, bool, num, lit, Fields, field, end}
use usb_defense_system.Exec.{Result, ok, err, os_error}
use usb_defense_system.Platform.{Platform}

abbrev pub evil_storage : Fields
evil_storage = field "vendor_id" (lit "1234") (
    field "product_id" (lit "abcd") (
      field "serial" (lit "FAKE-SERIAL-EVIL") (
        field "fingerprint" (lit "1234:abcd:FAKE-SERIAL-EVIL") (
          field "manufacturer" (lit "Suspicious Inc") (
            field "product" (lit "Sketchy Stick") (
              field "device_class" (lit "MassStorage") (
                field "usb_version" (lit "3.0") (
                  field "capacity_bytes" (num (32 * 1024 ^ 3))
                    (field "devnode" (lit "/dev/sdz") end)))))))))

abbrev pub badusb_hid : Fields
badusb_hid = field "vendor_id" (lit "03eb") (
    field "product_id" (lit "2402") (
      field "serial" (lit "HAK5-DUCKY-SIM") (
        field "fingerprint" (lit "03eb:2402:HAK5-DUCKY-SIM") (
          field "manufacturer" (lit "Hak5") (
            field "product" (lit "USB Rubber Ducky (simulated)") (
              field "device_class" (lit "HID-Keyboard") (
                field "usb_version" (lit "2.0")
                  (field "devnode" (lit "/dev/input/eventX") end))))))))

abbrev pub admin_key : Fields
admin_key = field "vendor_id" (lit "0951") (
    field "product_id" (lit "1666") (
      field "serial" (lit "60A44C413FAEE2B129C9015A") (
        field "fingerprint" (lit "0951:1666:60A44C413FAEE2B129C9015A") (
          field "manufacturer" (lit "Kingston") (
            field "product" (lit "DataTraveler 3.0")
              (field "device_class" (lit "MassStorage") (field "usb_version" (lit "3.0") end)))))))

abbrev pub regular_auth : Fields
regular_auth = field "vendor_id" (lit "0781") (
    field "product_id" (lit "5567") (
      field "serial" (lit "4C530001120628116341") (
        field "fingerprint" (lit "0781:5567:4C530001120628116341") (
          field "manufacturer" (lit "SanDisk") (
            field "product" (lit "Cruzer Blade")
              (field "device_class" (lit "MassStorage") (field "usb_version" (lit "2.0") end)))))))

-- The keys of `SCENARIOS`
pub data Scenario : Type 0 where
  unauthorized lockdown unlock authorized_key authorized authorized_normal badusb : Scenario
  badusb_lockdown : Scenario

abbrev pub backup_drive : Fields
backup_drive = field "type" (lit "authorized_insert") (
    field "device" (obj admin_key)
      (field "label" (lit "Admin Backup Drive") (field "can_unlock" (bool true) end)))

-- The values of `SCENARIOS`
unfoldable pub payload : Scenario → Fields
payload unauthorized =
    field "type" (lit "unauthorized_insert") (field "device" (obj evil_storage) end)
payload lockdown = field "type" (lit "lockdown_enter") (field "offender" (obj evil_storage) end)
payload unlock = field "type" (lit "lockdown_clear") (field "reason" (lit "test simulation") end)
payload authorized_key = backup_drive
payload authorized = backup_drive
payload authorized_normal = field "type" (lit "authorized_insert") (
    field "device" (obj regular_auth)
      (field "label" (lit "Field Engineer Data Drive") (field "can_unlock" (bool false) end)))
payload badusb = field "type" (lit "unauthorized_insert") (field "device" (obj badusb_hid) end)
payload badusb_lockdown =
    field "type" (lit "lockdown_enter") (field "offender" (obj badusb_hid) end)

unfoldable pub scenario_of : Text → Option Scenario
scenario_of s =
    if text_eq s (codes "unauthorized")
    then some unauthorized
    else if text_eq s (codes "lockdown")
    then some lockdown
    else if text_eq s (codes "unlock")
    then some unlock
    else if text_eq s (codes "authorized_key")
    then some authorized_key
    else if text_eq s (codes "authorized")
    then some authorized
    else if text_eq s (codes "authorized_normal")
    then some authorized_normal
    else if text_eq s (codes "badusb")
    then some badusb
    else if text_eq s (codes "badusb_lockdown")
    then some badusb_lockdown
    else none

-- What `connect` does: it raises one of the two errors that are caught, or another one.
pub data Connecting : Type 0 where
  connected no_daemon denied : Connecting

-- The variable of the environment if it is there and not empty, or what the prompt returns.
abbrev pub password_of : Option Text → Text → Text
password_of none typed = typed
password_of (some []) typed = typed
password_of (some (c ∷ s)) typed = c ∷ s

abbrev pub envelope : Fields → Text → Fields
envelope event password =
    field "cmd" (lit "simulate_event")
      (field "event" (obj event) (field "password" (str password) end))

module _ (P : Platform) where
  abbrev pub line : Fields → Text
  line message = P.dumps (obj message) ++ 10 ∷ []

  -- After `connect`: the exit code, and the lines that were sent. `link` says whether `sendall`
  -- returns.
  abbrev send_scenario : Connecting → Bool → Option Text → Text → Scenario → Result ℕ × List Text
  send_scenario no_daemon link env typed s = (ok 2, [])
  send_scenario denied link env typed s = (err os_error, [])
  send_scenario connected link env typed s =
      if link
      then (ok 0, line (envelope (payload s) (password_of env typed)) ∷ [])
      else (err os_error, [])

  abbrev run_scenario :
      Connecting → Bool → Option Text → Text → Option Scenario → Result ℕ × List Text
  run_scenario socket link env typed none = (ok 1, [])
  run_scenario socket link env typed (some s) = send_scenario socket link env typed s

  -- `main`: `argv` are the arguments after the program's name, `env` is the variable
  -- `USB_DEFENSE_ADMIN_PASSWORD` and `typed` what the user types at the prompt.
  unfoldable pub main : List Text → Connecting → Bool → Option Text → Text → Result ℕ × List Text
  unfolding payload scenario_of
  main [] socket link env typed = (ok 1, [])
  main (name ∷ more) socket link env typed = run_scenario socket link env typed (scenario_of name)
