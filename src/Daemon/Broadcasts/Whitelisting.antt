-- ===== src/Daemon/Broadcasts/Whitelisting.antt =====
-- The commands on the whitelist and on the password.
use usb_defense_system.Prelude.{List, refl, Bool, true, false, String, arith, []}
use usb_defense_system.Json.{Json, bool, str, obj, field, end, or_else, Fields, lit}
use usb_defense_system.Exec.{
  continue, Result, ok, err, type_error, value_error, pure, modify, when, ◌>>◌,
}
use usb_defense_system.Platform.{Platform}
use usb_defense_system.Whitelist.{WhitelistEntry, Store}
use usb_defense_system.Whitelist
use usb_defense_system.Daemon.State.{Daemon, Moment, log_event, broadcast}
use usb_defense_system.Daemon.Throttle.{record_auth_failure, record_auth_success}
use usb_defense_system.Daemon.Commands.{
  do_verify_password, do_add_whitelist_entry, do_remove_whitelist_entry, unauthorized,
  insert_or_refuse, add_if, remove_if, get_or, get, as_object, entry_of_message, announce_removal,
  reply,
}
use usb_defense_system.Daemon.Commands.Access.{password_ok, check_password-eq}
use usb_defense_system.Daemon.Broadcasts.{IsTold, silent, announced, lock_after}

abbrev changed_event : Json
changed_event = obj (field "type" (lit "whitelist_changed") end)

module _ (P : Platform) (t : Moment) {past : List Json} {b : Bool} where
  pub do_verify_password-IsTold :
      (msg : Fields) (d : Daemon) → IsTold past b d → IsTold past b (do_verify_password P t msg d).1
  unfolding do_verify_password record_auth_failure record_auth_success
  do_verify_password-IsTold msg d =
      silent d (do_verify_password P t msg d).1 (rw (check_password-eq P msg d) (ground arith))
        (rw (check_password-eq P msg d) (ground arith))

  unauthorized-IsTold :
      (op : String) (d : Daemon) → IsTold past b d → IsTold past b (unauthorized P t op d).1
  unfolding record_auth_failure
  unauthorized-IsTold op d = silent d (unauthorized P t op d).1 (ground arith) (ground arith)

  insert_or_refuse-IsTold :
      (r : Result WhitelistEntry) (d : Daemon)
      → IsTold past b d
      → IsTold past b (insert_or_refuse P t r d).1
  unfolding lock_after
  insert_or_refuse-IsTold (ok entry) d told = after (Whitelist.add P entry d.store)
    where
      after :
          (r : Result (Unit {0}) × Store)
          → IsTold past b
              (continue r.0
                (λ _. do
                  modify (
                      log_event P t "WHITELIST_ADD"
                        (field "entry_id" entry.id (field "label" entry.label end)))
                  modify (broadcast (field "type" (lit "whitelist_changed") end))
                  pure (
                      obj (
                        field "type"
                          (lit "add_whitelist_entry")
                          (field "ok" (bool true) (field "entry_id" entry.id end)))))
                (record d { store = r.1 })).1
      after (ok _, s) = announced changed_event d _ refl refl told
      after (err e, s) = silent d (record d { store = s }) refl refl told
  insert_or_refuse-IsTold (err type_error) d told = told
  insert_or_refuse-IsTold (err value_error) d told = told
  insert_or_refuse-IsTold (err _) d told = told

  success-IsTold : (d : Daemon) → IsTold past b d → IsTold past b (record_auth_success d)
  unfolding record_auth_success
  success-IsTold d told = silent d (record_auth_success d) refl refl told

  add_if-IsTold :
      (msg : Fields) (right : Bool) (d : Daemon)
      → IsTold past b d
      → IsTold past b (add_if P t msg right d).1
  add_if-IsTold msg true d told = from (as_object (or_else (get "entry" msg) (obj end)))
    where
      from :
          (r : Result Fields)
          → IsTold past b
              (continue r
                (λ fields. insert_or_refuse P t (entry_of_message P t fields))
                (record_auth_success d)).1
      from (ok fields) =
          insert_or_refuse-IsTold (entry_of_message P t fields) (record_auth_success d)
            (success-IsTold d told)
      from (err e) = success-IsTold d told
  add_if-IsTold msg false d told = unauthorized-IsTold "add_whitelist_entry" d told

  pub do_add_whitelist_entry-IsTold :
      (msg : Fields) (d : Daemon)
      → IsTold past b d
      → IsTold past b (do_add_whitelist_entry P t msg d).1
  unfolding do_add_whitelist_entry
  do_add_whitelist_entry-IsTold msg d told =
      rw (check_password-eq P msg d) (add_if-IsTold msg (password_ok P msg d.store.files) d told)

  remove_if-IsTold :
      (msg : Fields) (right : Bool) (d : Daemon)
      → IsTold past b d
      → IsTold past b (remove_if P t msg right d).1
  unfolding lock_after
  remove_if-IsTold msg true d told =
      after (Whitelist.remove P entry_id (record_auth_success d).store)
    where
      entry_id : Json
      entry_id = get_or "entry_id" (str []) msg

      before : Daemon
      before = record_auth_success d

      after :
          (r : Result Bool × Store)
          → IsTold past b
              (continue r.0
                (λ gone. do
                  when gone (modify (announce_removal P t (get_or "entry_id" (str []) msg)))
                  pure (reply "remove_whitelist_entry" gone))
                (record (record_auth_success d) { store = r.1 })).1
      after (ok true, s) =
          announced changed_event (record_auth_success d) _ refl refl (success-IsTold d told)
      after (ok false, s) = silent (record_auth_success d) _ refl refl (success-IsTold d told)
      after (err e, s) = silent (record_auth_success d) _ refl refl (success-IsTold d told)
  remove_if-IsTold msg false d told = unauthorized-IsTold "remove_whitelist_entry" d told

  pub do_remove_whitelist_entry-IsTold :
      (msg : Fields) (d : Daemon)
      → IsTold past b d
      → IsTold past b (do_remove_whitelist_entry P t msg d).1
  unfolding do_remove_whitelist_entry
  do_remove_whitelist_entry-IsTold msg d told =
      rw (check_password-eq P msg d) (remove_if-IsTold msg (password_ok P msg d.store.files) d told)
