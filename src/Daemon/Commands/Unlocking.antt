-- ===== src/Daemon/Commands/Unlocking.antt =====
-- What each command does to the lockdown and to the whitelist, by the credential that it was given.
use usb_defense_system.Prelude.{◌≡◌, ◌≢◌, refl, Bool, true, false, [], Text, arith, ◌⊎◌, inl, inr}
use usb_defense_system.Json.{Json, bool, int, arr, str, obj, Fields, lookup, null}
use usb_defense_system.Exec.{Result, ok, err}
use usb_defense_system.Platform.{Platform}
use usb_defense_system.Files.{FileSystem}
use usb_defense_system.Recovery.{verify_and_consume}
use usb_defense_system.Daemon.State.{Daemon, Moment, get_field}
use usb_defense_system.Daemon.Throttle.{record_auth_failure, record_auth_success}
use usb_defense_system.Daemon.Lockdown.{clear_lockdown, record_intrusion}
use usb_defense_system.Daemon.Commands.{
  do_verify_password, do_add_whitelist_entry, do_remove_whitelist_entry, do_unlock_with_password,
  do_unlock_with_seed,
}
use usb_defense_system.Daemon.Commands.Access.{password_ok, check_password-eq}

module _ (P : Platform) (t : Moment) (msg : Fields) (d : Daemon) where
  pub do_verify_password-same :
      let d' = (do_verify_password P t msg d).1 in
      (d'.locked ≡ d.locked) × (d'.store.entries ≡ d.store.entries)
  unfolding do_verify_password record_auth_failure record_auth_success
  do_verify_password-same = rw (check_password-eq P msg d) (ground arith)

  pub do_add_whitelist_entry-locked : (do_add_whitelist_entry P t msg d).1.locked ≡ d.locked
  unfolding do_add_whitelist_entry record_auth_failure record_auth_success
  do_add_whitelist_entry-locked = rw (check_password-eq P msg d) (ground arith)

  pub do_add_whitelist_entry-entries :
      password_ok P msg d.store.files ≡ false
      → (do_add_whitelist_entry P t msg d).1.store.entries ≡ d.store.entries
  unfolding do_add_whitelist_entry record_auth_failure record_auth_success
  do_add_whitelist_entry-entries h = rw (check_password-eq P msg d) (ground (arith, h))

  pub do_remove_whitelist_entry-locked : (do_remove_whitelist_entry P t msg d).1.locked ≡ d.locked
  unfolding do_remove_whitelist_entry record_auth_failure record_auth_success
  do_remove_whitelist_entry-locked = rw (check_password-eq P msg d) (ground arith)

  pub do_remove_whitelist_entry-entries :
      password_ok P msg d.store.files ≡ false
      → (do_remove_whitelist_entry P t msg d).1.store.entries ≡ d.store.entries
  unfolding do_remove_whitelist_entry record_auth_failure record_auth_success
  do_remove_whitelist_entry-entries h = rw (check_password-eq P msg d) (ground (arith, h))

  pub do_unlock_with_password-refused :
      password_ok P msg d.store.files ≡ false
      → (do_unlock_with_password P t msg d).1.locked ≡ d.locked
  unfolding do_unlock_with_password record_auth_failure record_intrusion
  do_unlock_with_password-refused h = rw (check_password-eq P msg d) (ground (arith, h))

  pub do_unlock_with_password-entries :
      (do_unlock_with_password P t msg d).1.store.entries ≡ d.store.entries
  unfolding do_unlock_with_password record_auth_failure record_auth_success record_intrusion
      clear_lockdown
  do_unlock_with_password-entries = rw (check_password-eq P msg d) (ground arith)

-- The message carries a recovery code that is accepted. A message with no code has the empty one.
pub record HasCode (P : Platform) (msg : Fields) (fs : FileSystem) : Type 0 where
  pub code : Text
  pub given : get_field (lookup "code" msg) (str []) ≡ str code
  pub accepted : (verify_and_consume P code fs).0 ≡ ok true

abbrev pub code_result : Platform → Json → FileSystem → Result Bool
code_result P (str code) fs = (verify_and_consume P code fs).0
code_result P _ fs = ok false

module _ (P : Platform) (t : Moment) (msg : Fields) (d : Daemon) where
  pub do_unlock_with_seed-refused :
      code_result P (get_field (lookup "code" msg) (str [])) d.store.files ≢ ok true
      → (do_unlock_with_seed P t msg d).1.locked ≡ d.locked
  unfolding do_unlock_with_seed record_auth_failure record_intrusion
  do_unlock_with_seed-refused h = ground arith

  pub do_unlock_with_seed-entries :
      (do_unlock_with_seed P t msg d).1.store.entries ≡ d.store.entries
  unfolding do_unlock_with_seed record_auth_failure record_auth_success record_intrusion
      clear_lockdown
  do_unlock_with_seed-entries = ground arith

  pub do_unlock_with_seed-locks :
      d.locked ≡ false → (do_unlock_with_seed P t msg d).1.locked ≡ false
  unfolding do_unlock_with_seed record_auth_failure record_auth_success record_intrusion
      clear_lockdown
  do_unlock_with_seed-locks h = ground (arith, h)

  pub do_unlock_with_password-locks :
      d.locked ≡ false → (do_unlock_with_password P t msg d).1.locked ≡ false
  unfolding do_unlock_with_password record_auth_failure record_auth_success record_intrusion
      clear_lockdown
  do_unlock_with_password-locks h = rw (check_password-eq P msg d) (ground (arith, h))

pub accepted_code :
    (P : Platform) (msg : Fields) (fs : FileSystem) (j : Json)
    → get_field (lookup "code" msg) (str []) ≡ j
    → code_result P j fs ≡ ok true
    → HasCode P msg fs
accepted_code P msg fs (str code) e h = record { code = code; given = e; accepted = h }
accepted_code P msg fs null e h = cc
accepted_code P msg fs (bool b) e h = cc
accepted_code P msg fs (int n) e h = cc
accepted_code P msg fs (arr xs) e h = cc
accepted_code P msg fs (obj fields) e h = cc

pub is_ok_true : (r : Result Bool) → (r ≡ ok true) ⊎ (r ≢ ok true)
is_ok_true (ok true) = inl refl
is_ok_true (ok false) = inr (λ e. cc)
is_ok_true (err x) = inr (λ e. cc)

-- If `unlock_with_seed` ends a lockdown, the message carried an accepted recovery code.
pub do_unlock_with_seed-credential :
    (P : Platform) (t : Moment) (msg : Fields) (d : Daemon)
    → d.locked ≡ true
    → (do_unlock_with_seed P t msg d).1.locked ≡ false
    → HasCode P msg d.store.files
do_unlock_with_seed-credential P t msg d l u =
    elim (is_ok_true (code_result P (get_field (lookup "code" msg) (str [])) d.store.files)) [
      | inl e ↦ accepted_code P msg d.store.files _ refl e
      | inr n ↦ absurd (cc (do_unlock_with_seed-refused P t msg d n))
    ]
