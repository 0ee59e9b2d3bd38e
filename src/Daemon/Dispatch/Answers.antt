-- ===== src/Daemon/Dispatch/Answers.antt =====
-- Which messages `_handle_ipc_command` answers with success.
use usb_defense_system.Prelude.{
  ◌≡◌, ◌≢◌, refl, Bool, true, false, [], if◌then◌else◌, ltb, arith, ◌⊎◌, inl, inr, Bool-cases,
}
use usb_defense_system.Json.{Json, obj, bool, str, Fields, lookup, truthy}
use usb_defense_system.Exec.{Result, ok, err}
use usb_defense_system.Platform.{Platform}
use usb_defense_system.Files.{FileSystem}
use usb_defense_system.Daemon.State.{Daemon, Moment, get_field}
use usb_defense_system.Daemon.Throttle.{auth_locked_out}
use usb_defense_system.Daemon.Commands.{
  Command, status, list_whitelist, verify_password, add_whitelist_entry, remove_whitelist_entry,
  unlock_with_password, unlock_with_seed, simulate_event, unknown, do_verify_password,
  do_add_whitelist_entry, do_remove_whitelist_entry, do_unlock_with_password, do_unlock_with_seed,
  status_reply, lockout_reply, command_of, get,
}
use usb_defense_system.Daemon.Commands.Access.{
  HasPassword, password_ok, password_ok_sound, check_password-eq,
}
use usb_defense_system.Daemon.Commands.Unlocking.{HasCode, code_result, accepted_code, is_ok_true}
use usb_defense_system.Daemon.Dispatch.{
  is_status, handle_ipc_command, dispatch, perform, do_simulate_event, simulate_enabled,
}
use usb_defense_system.Daemon.Dispatch.Credentials.{IsAuthorized}

abbrev is_true : Json → Bool
is_true (bool b) = b
is_true _ = false

abbrev says_ok : Json → Bool
says_ok (obj fields) = is_true (get "ok" fields)
says_ok _ = false

-- The answer says `"ok": true`.
abbrev pub is_success : Result Json → Bool
is_success (ok j) = says_ok j
is_success (err e) = false

module _ (P : Platform) (t : Moment) (msg : Fields) (d : Daemon) where
  abbrev before : FileSystem
  before = d.store.files

  do_verify_password-refused :
      password_ok P msg before ≡ false → is_success (do_verify_password P t msg d).0 ≡ false
  unfolding do_verify_password lookup
  do_verify_password-refused h = rw (check_password-eq P msg d, h) refl

  do_add_whitelist_entry-refused :
      password_ok P msg before ≡ false → is_success (do_add_whitelist_entry P t msg d).0 ≡ false
  unfolding do_add_whitelist_entry lookup
  do_add_whitelist_entry-refused h = rw (check_password-eq P msg d, h) refl

  do_remove_whitelist_entry-refused :
      password_ok P msg before ≡ false → is_success (do_remove_whitelist_entry P t msg d).0 ≡ false
  unfolding do_remove_whitelist_entry lookup
  do_remove_whitelist_entry-refused h = rw (check_password-eq P msg d, h) refl

  do_unlock_with_password-failed :
      password_ok P msg before ≡ false → is_success (do_unlock_with_password P t msg d).0 ≡ false
  unfolding do_unlock_with_password lookup
  do_unlock_with_password-failed h = rw (check_password-eq P msg d, h) refl

  do_simulate_event-refused :
      password_ok P msg before ≡ false → is_success (do_simulate_event P t msg d).0 ≡ false
  unfolding do_simulate_event lookup
  do_simulate_event-refused h = by_config (truthy d.config.simulator_enabled)
    where
      by_config : (b : Bool) → is_success (simulate_enabled P t msg b d).0 ≡ false
      by_config true = rw (check_password-eq P msg d, h) refl
      by_config false = refl

  do_unlock_with_seed-failed :
      code_result P (get_field (lookup "code" msg) (str [])) before ≢ ok true
      → is_success (do_unlock_with_seed P t msg d).0 ≡ false
  unfolding do_unlock_with_seed lookup
  do_unlock_with_seed-failed h = ground arith

  -- A command that answers with success only for the right password.
  by_password :
      (r : Result Json)
      → (password_ok P msg before ≡ false → is_success r ≡ false)
      → is_success r ≡ true
      → HasPassword P msg before ⊎ HasCode P msg before
  by_password r refused s = elim (Bool-cases (password_ok P msg before)) [
    | inl e ↦ inl (password_ok_sound P msg before e)
    | inr e ↦ absurd (cc (refused e, s))
  ]

  perform-success :
      (k : Command)
      → is_success (perform P t k msg d).0 ≡ true
      → HasPassword P msg before ⊎ HasCode P msg before
  unfolding perform status_reply lookup
  perform-success status s = absurd cc
  perform-success list_whitelist s = absurd cc
  perform-success unknown s = absurd cc
  perform-success verify_password s =
      by_password (do_verify_password P t msg d).0 do_verify_password-refused s
  perform-success add_whitelist_entry s =
      by_password (do_add_whitelist_entry P t msg d).0 do_add_whitelist_entry-refused s
  perform-success remove_whitelist_entry s =
      by_password (do_remove_whitelist_entry P t msg d).0 do_remove_whitelist_entry-refused s
  perform-success unlock_with_password s =
      by_password (do_unlock_with_password P t msg d).0 do_unlock_with_password-failed s
  perform-success simulate_event s =
      by_password (do_simulate_event P t msg d).0 do_simulate_event-refused s
  perform-success unlock_with_seed s =
      elim (is_ok_true (code_result P (get_field (lookup "code" msg) (str [])) before)) [
        | inl e ↦ inr (accepted_code P msg before _ refl e)
        | inr n ↦ absurd (cc (do_unlock_with_seed-failed n, s))
      ]

  dispatch-success :
      (k : Command)
      → is_success (dispatch P t k msg d).0 ≡ true
      → (auth_locked_out t d ≡ 0) × (HasPassword P msg before ⊎ HasCode P msg before)
  unfolding dispatch status_reply lockout_reply lookup
  dispatch-success k s = by_tests (is_status k) (ltb 0 (auth_locked_out t d)) refl s
    where
      by_tests :
          (asks waits : Bool)
          → ltb 0 (auth_locked_out t d) ≡ waits
          → is_success
              (if asks
                then (ok (status_reply t d), d)
                else if waits
                then (ok (lockout_reply (get "cmd" msg) (auth_locked_out t d)), d)
                else perform P t k msg d).0
            ≡ true
          → (auth_locked_out t d ≡ 0) × (HasPassword P msg before ⊎ HasCode P msg before)
      by_tests true _ w r = absurd cc
      by_tests false true w r = absurd cc
      by_tests false false w r = (ground arith, perform-success k r)

module _ (P : Platform) (t : Moment) where
  -- If `_handle_ipc_command` answers a message with `"ok": true`, whatever the command, then no
  -- lockout was running, and the message carried a password that argon2 accepts for the stored hash, or
  -- a valid recovery code.
  pub success_needs_credential :
      (msg : Json) (d : Daemon)
      → is_success (handle_ipc_command P t msg d).0 ≡ true
      → IsAuthorized P t msg d
  unfolding handle_ipc_command
  success_needs_credential (obj fields) d s =
      let (free, credential) = dispatch-success P t fields d (command_of (get "cmd" fields)) s in
      record { fields = fields; sent = refl; allowed = free; credential = credential }
  success_needs_credential _ d s = absurd cc
