-- ===== src/Daemon/Commands/Consistency.antt =====
-- The flag files and the lockdown in memory, over the commands of `_handle_ipc_command`.
use usb_defense_system.Prelude.{[], ◌≡◌, refl, sym, Bool, true, false, String, arith}
use mathlib.Core.Path.{subst}
use usb_defense_system.Json.{field, end, or_else, Json, str, obj, null, Fields, lit}
use usb_defense_system.Exec.{continue, Result, ok, err, type_error, value_error, Exec, pure, ◌>>◌}
use usb_defense_system.Platform.{Platform}
use usb_defense_system.Files.{persistent_lockdown_flag, lockdown_flag}
use usb_defense_system.EventLog
use usb_defense_system.Recovery.{verify_and_consume}
use usb_defense_system.Whitelist.{WhitelistEntry}
use usb_defense_system.Whitelist.Frame.{add-spared, remove-spared}
use usb_defense_system.Config.{Config}
use usb_defense_system.Daemon.State.{Daemon, Moment, log_event}
use usb_defense_system.Daemon.Throttle.{record_auth_failure, record_auth_success}
use usb_defense_system.Daemon.Lockdown.{clear_lockdown, record_intrusion}
use usb_defense_system.Daemon.Lockdown.Consistency.{
  IsConsistent, SameLock, same_lock, clear_lockdown-IsConsistent,
}
use usb_defense_system.Daemon.Commands.{
  do_verify_password, do_add_whitelist_entry, do_remove_whitelist_entry, do_unlock_with_password,
  do_unlock_with_seed, unauthorized, insert_or_refuse, add_if, remove_if, failed_unlock,
  successful_unlock, password_unlock, seed_unlock, check_code, get_or, get, as_object,
  entry_of_message,
}
use usb_defense_system.Daemon.Commands.Access.{password_ok, check_password-eq}

module _ (P : Platform) (t : Moment) where
  pub do_verify_password-lock :
      (msg : Fields) (d : Daemon) → SameLock d (do_verify_password P t msg d).1
  unfolding do_verify_password record_auth_failure record_auth_success EventLog.write
  do_verify_password-lock msg d = rw (check_password-eq P msg d) (ground arith)

  pub unauthorized-lock : (op : String) (d : Daemon) → SameLock d (unauthorized P t op d).1
  unfolding record_auth_failure EventLog.write
  unauthorized-lock op d = ground arith

  insert_or_refuse-lock :
      (r : Result WhitelistEntry) (d : Daemon) → SameLock d (insert_or_refuse P t r d).1
  unfolding EventLog.write
  insert_or_refuse-lock (ok entry) d = ground (
    arith,
    add-spared P persistent_lockdown_flag entry d.store (refl, refl, refl, refl),
    add-spared P lockdown_flag entry d.store (refl, refl, refl, refl),
  )
  insert_or_refuse-lock (err type_error) d = (refl, refl, refl, refl, refl, refl)
  insert_or_refuse-lock (err value_error) d = (refl, refl, refl, refl, refl, refl)
  insert_or_refuse-lock (err _) d = (refl, refl, refl, refl, refl, refl)

  add_if-lock : (msg : Fields) (b : Bool) (d : Daemon) → SameLock d (add_if P t msg b d).1
  unfolding record_auth_success
  add_if-lock msg true d = from (as_object (or_else (get "entry" msg) (obj end)))
    where
      from :
          (r : Result Fields)
          → SameLock d
              (continue r
                (λ fields. insert_or_refuse P t (entry_of_message P t fields))
                (record_auth_success d)).1
      from (ok fields) = insert_or_refuse-lock (entry_of_message P t fields) (record_auth_success d)
      from (err e) = (refl, refl, refl, refl, refl, refl)
  add_if-lock msg false d = unauthorized-lock "add_whitelist_entry" d

  pub do_add_whitelist_entry-lock :
      (msg : Fields) (d : Daemon) → SameLock d (do_add_whitelist_entry P t msg d).1
  unfolding do_add_whitelist_entry
  do_add_whitelist_entry-lock msg d =
      rw (check_password-eq P msg d) (add_if-lock msg (password_ok P msg d.store.files) d)

  remove_if-lock : (msg : Fields) (b : Bool) (d : Daemon) → SameLock d (remove_if P t msg b d).1
  unfolding record_auth_success EventLog.write
  remove_if-lock msg true d =
      let entry_id = get_or "entry_id" (str []) msg in
      ground (
        arith,
        remove-spared P persistent_lockdown_flag entry_id d.store (refl, refl, refl, refl),
        remove-spared P lockdown_flag entry_id d.store (refl, refl, refl, refl),
      )
  remove_if-lock msg false d = unauthorized-lock "remove_whitelist_entry" d

  pub do_remove_whitelist_entry-lock :
      (msg : Fields) (d : Daemon) → SameLock d (do_remove_whitelist_entry P t msg d).1
  unfolding do_remove_whitelist_entry
  do_remove_whitelist_entry-lock msg d =
      rw (check_password-eq P msg d) (remove_if-lock msg (password_ok P msg d.store.files) d)

  failed_unlock-lock :
      (op method kind detail : String) (d : Daemon)
      → SameLock d (failed_unlock P t op method kind detail d).1
  unfolding record_auth_failure record_intrusion EventLog.write
  failed_unlock-lock op method kind detail d = ground arith

  pub then_pure :
      {A B : Type 0} (m : Exec Daemon A) (b : B) (d : Daemon) → ((m >> pure b) d).1 ≡ (m d).1
  then_pure m b d = ground arith

  successful_unlock-IsConsistent :
      {c : Config} (op method reason : String) (warn : Bool) (d : Daemon)
      → IsConsistent P c d
      → IsConsistent P c (successful_unlock P t op method reason warn d).1
  unfolding record_auth_success EventLog.write
  successful_unlock-IsConsistent {c} op method reason warn d h =
      let ready =
        log_event P t "UNLOCK_SUCCESS" (field "method" (lit method) end) (record_auth_success d) in
      let same : SameLock d ready = ground arith in
      subst (IsConsistent P c) (sym (then_pure (clear_lockdown P (lit reason) null warn) _ ready))
        (clear_lockdown-IsConsistent P (lit reason) null warn ready (same_lock P d ready same h))

  password_unlock-IsConsistent :
      {c : Config} (b : Bool) (d : Daemon)
      → IsConsistent P c d
      → IsConsistent P c (password_unlock P t b d).1
  password_unlock-IsConsistent true d h =
      successful_unlock-IsConsistent "unlock_with_password" "password" "admin password" false d h
  password_unlock-IsConsistent false d h =
      same_lock P d (password_unlock P t false d).1
        (failed_unlock-lock "unlock_with_password" "password" "WRONG_PASSWORD"
          "Failed admin-password unlock attempt" d)
        h

  pub do_unlock_with_password-IsConsistent :
      {c : Config} (msg : Fields) (d : Daemon)
      → IsConsistent P c d
      → IsConsistent P c (do_unlock_with_password P t msg d).1
  unfolding do_unlock_with_password
  do_unlock_with_password-IsConsistent {c} msg d h =
      subst
        (λ (r : Result Bool × Daemon). IsConsistent P c (continue r.0 (password_unlock P t) r.1).1)
        (sym (check_password-eq P msg d))
        (password_unlock-IsConsistent (password_ok P msg d.store.files) d h)

  seed_unlock-IsConsistent :
      {c : Config} (b : Bool) (d : Daemon)
      → IsConsistent P c d
      → IsConsistent P c (seed_unlock P t b d).1
  seed_unlock-IsConsistent true d h =
      successful_unlock-IsConsistent "unlock_with_seed" "paper_code" "paper recovery code" true d h
  seed_unlock-IsConsistent false d h =
      same_lock P d (seed_unlock P t false d).1
        (failed_unlock-lock "unlock_with_seed" "paper_code" "WRONG_RECOVERY_CODE"
          "Failed paper-recovery-code unlock attempt" d)
        h

  pub check_code-lock : (code : Json) (d : Daemon) → SameLock d (check_code P t code d).1
  unfolding verify_and_consume
  check_code-lock (str code) d = ground arith
  check_code-lock _ d = (refl, refl, refl, refl, refl, refl)

  pub do_unlock_with_seed-IsConsistent :
      {c : Config} (msg : Fields) (d : Daemon)
      → IsConsistent P c d
      → IsConsistent P c (do_unlock_with_seed P t msg d).1
  unfolding do_unlock_with_seed
  do_unlock_with_seed-IsConsistent {c} msg d h =
      after (check_code P t (get_or "code" (str []) msg) d) (
        same_lock P d (check_code P t (get_or "code" (str []) msg) d).1
          (check_code-lock (get_or "code" (str []) msg) d) h)
    where
      after :
          (r : Result Bool × Daemon)
          → IsConsistent P c r.1
          → IsConsistent P c (continue r.0 (seed_unlock P t) r.1).1
      after (ok b, d') k = seed_unlock-IsConsistent b d' k
      after (err e, d') k = k
