-- ===== src/Daemon/Commands.antt =====
-- `_handle_ipc_command`: one function for each command, and the dispatch with its throttle.
pub mod Access
pub mod Unlocking
pub mod Consistency
use usb_defense_system.Prelude.{
  ℕ, Bool, true, false, not, ◌&&◌, ◌||◌, String, Option, none, some, List, [], ◌∷◌, ◌++◌,
  if◌then◌else◌, Text, codes, text_eq, length, map, ltb,
}
use usb_defense_system.Json.{
  Json, null, bool, str, obj, arr, num, lit, field, end, Fields, lookup, truthy, or_else, to_items,
  py_eq,
}
use usb_defense_system.Exec.{
  Result, ok, err, Error, Exec, pure, raise, lift, modify, gets, when, attribute_error, type_error,
  value_error, ◌>>=◌, ◌>>◌,
}
use usb_defense_system.Platform.{Platform}
use usb_defense_system.Recovery.{verify_and_consume}
use usb_defense_system.Whitelist.{Store, WhitelistEntry, new_entry, asdict}
use usb_defense_system.Whitelist
use usb_defense_system.Daemon.State.{
  Daemon, Moment, on_files, on_store, broadcast, log_event, get_field,
}
use usb_defense_system.Daemon.Throttle.{
  check_password, auth_locked_out, record_auth_failure, record_auth_success,
}
use usb_defense_system.Daemon.Lockdown.{enter_lockdown, clear_lockdown, record_intrusion}

pub data Command : Type 0 where
  status list_whitelist verify_password add_whitelist_entry remove_whitelist_entry : Command
  unlock_with_password unlock_with_seed simulate_event unknown : Command

command_text : Text → Command
command_text s =
    if text_eq s (codes "status")
    then status
    else if text_eq s (codes "list_whitelist")
    then list_whitelist
    else if text_eq s (codes "verify_password")
    then verify_password
    else if text_eq s (codes "add_whitelist_entry")
    then add_whitelist_entry
    else if text_eq s (codes "remove_whitelist_entry")
    then remove_whitelist_entry
    else if text_eq s (codes "unlock_with_password")
    then unlock_with_password
    else if text_eq s (codes "unlock_with_seed")
    then unlock_with_seed
    else if text_eq s (codes "simulate_event")
    then simulate_event
    else unknown

-- The comparisons of `msg.get("cmd")` with the names of the commands.
unfoldable pub command_of : Json → Command
unfolding command_text
command_of (str s) = command_text s
command_of _ = unknown

-- `{"type": kind, "ok": result}`
abbrev pub reply : String → Bool → Json
reply kind result = obj (field "type" (lit kind) (field "ok" (bool result) end))

abbrev pub refusal : String → Text → Json
refusal kind error =
    obj (field "type" (lit kind) (field "ok" (bool false) (field "error" (str error) end)))

abbrev version : Text
version = codes "0.3.0"

-- `msg.get(key)` and `msg.get(key, default)`
abbrev pub get : String → Fields → Json
get key msg = get_field (lookup key msg) null

abbrev pub get_or : String → Json → Fields → Json
get_or key default msg = get_field (lookup key msg) default

-- `value.get(...)` on a value that came from a client
abbrev pub as_object : Json → Result Fields
as_object (obj fs) = ok fs
as_object _ = err attribute_error

abbrev pub status_fields : Moment → Daemon → Fields
status_fields t d = field "type" (lit "status") (
    field "locked" (bool d.locked) (
      field "offender" d.lock_offender (
        field "started_at" d.lock_started_at (
          field "whitelist_size" (num (length d.store.entries)) (
            field "integrity_failed" (bool d.store.integrity_failed) (
              field "version" (str version)
                (field "auth_lockout_remaining" (num (auth_locked_out t d)) end)))))))

unfoldable pub status_reply : Moment → Daemon → Json
status_reply t d = obj (status_fields t d)

unfoldable pub lockout_reply : Json → ℕ → Json
lockout_reply cmd wait = obj (
    field "type" (or_else cmd (lit "error")) (
      field "ok" (bool false)
        (field "error" (lit "auth_locked_out") (field "retry_after_seconds" (num wait) end))))

module _ (P : Platform) (t : Moment) where
  -- What a command with a wrong password records, under its own name.
  abbrev pub unauthorized : String → Exec Daemon Json
  unauthorized op = do
    modify (record_auth_failure P t op)
    modify (log_event P t "AUTH_FAILURE" (field "op" (lit op) end))
    pure (refusal op (codes "unauthorized"))

  abbrev pub verify_reply : Bool → Exec Daemon Json
  verify_reply true = modify record_auth_success >> pure (reply "verify_password" true)
  verify_reply false =
      modify (record_auth_failure P t "verify_password") >> pure (reply "verify_password" false)

  unfoldable pub do_verify_password : Fields → Exec Daemon Json
  do_verify_password msg = do right ← check_password P msg; verify_reply right

  abbrev pub entry_of_message : Fields → Result WhitelistEntry
  entry_of_message fs =
      new_entry t.uuid t.now (get_or "label" (lit "Unlabeled") fs) (get_or "vendor_id" (str []) fs)
        (get_or "product_id" (str []) fs) (get_or "serial" (str []) fs)
        (get_or "device_class" (lit "Unknown") fs) (get_or "added_by" (lit "admin") fs)
        (truthy (get_or "can_unlock" (bool false) fs))

  abbrev pub insert_entry : WhitelistEntry → Exec Daemon Json
  insert_entry entry = do
    on_store (Whitelist.add P entry)
    modify
        (log_event P t "WHITELIST_ADD" (field "entry_id" entry.id (field "label" entry.label end)))
    modify (broadcast (field "type" (lit "whitelist_changed") end))
    pure (
        obj (
          field "type" (lit "add_whitelist_entry")
            (field "ok" (bool true) (field "entry_id" entry.id end))))

  -- `except (TypeError, ValueError)`; what `new` and `get` raise here is an `AttributeError`.
  abbrev pub insert_or_refuse : Result WhitelistEntry → Exec Daemon Json
  insert_or_refuse (ok entry) d = insert_entry entry d
  insert_or_refuse (err type_error) d =
      (ok (refusal "add_whitelist_entry" (P.error_text type_error)), d)
  insert_or_refuse (err value_error) d =
      (ok (refusal "add_whitelist_entry" (P.error_text value_error)), d)
  insert_or_refuse (err e) d = (err e, d)

  abbrev pub add_authorized : Fields → Exec Daemon Json
  add_authorized msg = do
    modify record_auth_success
    fields ← lift (as_object (or_else (get "entry" msg) (obj end)))
    insert_or_refuse (entry_of_message fields)

  abbrev pub add_if : Fields → Bool → Exec Daemon Json
  add_if msg false = unauthorized "add_whitelist_entry"
  add_if msg true = add_authorized msg

  unfoldable pub do_add_whitelist_entry : Fields → Exec Daemon Json
  do_add_whitelist_entry msg = do right ← check_password P msg; add_if msg right

  abbrev pub announce_removal : Json → Daemon → Daemon
  announce_removal entry_id d =
      broadcast (field "type" (lit "whitelist_changed") end)
        (log_event P t "WHITELIST_REMOVE" (field "entry_id" entry_id end) d)

  abbrev pub remove_authorized : Json → Exec Daemon Json
  remove_authorized entry_id = do
    modify record_auth_success
    gone ← on_store (Whitelist.remove P entry_id)
    when gone (modify (announce_removal entry_id))
    pure (reply "remove_whitelist_entry" gone)

  abbrev pub remove_if : Fields → Bool → Exec Daemon Json
  remove_if msg false = unauthorized "remove_whitelist_entry"
  remove_if msg true = remove_authorized (get_or "entry_id" (str []) msg)

  unfoldable pub do_remove_whitelist_entry : Fields → Exec Daemon Json
  do_remove_whitelist_entry msg = do right ← check_password P msg; remove_if msg right

  -- A failed unlock attempt: counted, logged, and an intrusion if the system is locked.
  abbrev pub failed_unlock : String → String → String → String → Exec Daemon Json
  failed_unlock op method kind detail = do
    modify (record_auth_failure P t op)
    modify (log_event P t "UNLOCK_AUTH_FAILURE" (field "method" (lit method) end))
    modify (λ d. if d.locked then record_intrusion P t kind (codes detail) end d else d)
    pure (reply op false)

  abbrev pub successful_unlock : String → String → String → Bool → Exec Daemon Json
  successful_unlock op method reason warn = do
    modify record_auth_success
    modify (log_event P t "UNLOCK_SUCCESS" (field "method" (lit method) end))
    clear_lockdown P (lit reason) null warn
    pure (reply op true)

  abbrev pub password_unlock : Bool → Exec Daemon Json
  password_unlock false =
      failed_unlock "unlock_with_password" "password" "WRONG_PASSWORD"
        "Failed admin-password unlock attempt"
  password_unlock true = successful_unlock "unlock_with_password" "password" "admin password" false

  unfoldable pub do_unlock_with_password : Fields → Exec Daemon Json
  do_unlock_with_password msg = do right ← check_password P msg; password_unlock right

  -- A code that is no text is wrong; `verify_and_consume` may raise.
  abbrev pub check_code : Json → Exec Daemon Bool
  check_code (str code) = on_files (verify_and_consume P code)
  check_code _ = pure false

  abbrev pub seed_unlock : Bool → Exec Daemon Json
  seed_unlock false =
      failed_unlock "unlock_with_seed" "paper_code" "WRONG_RECOVERY_CODE"
        "Failed paper-recovery-code unlock attempt"
  seed_unlock true = successful_unlock "unlock_with_seed" "paper_code" "paper recovery code" true

  unfoldable pub do_unlock_with_seed : Fields → Exec Daemon Json
  do_unlock_with_seed msg = do right ← check_code (get_or "code" (str []) msg); seed_unlock right
