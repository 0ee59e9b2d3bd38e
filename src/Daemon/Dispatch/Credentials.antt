-- ===== src/Daemon/Dispatch/Credentials.antt =====
-- Which messages to `_handle_ipc_command` change the lockdown or the whitelist.
use usb_defense_system.Prelude.{◌≡◌, ◌≢◌, refl, ap, true, false, arith, ◌⊎◌, inl, inr, Bool-cases}
use usb_defense_system.Json.{Json, obj, null, Fields, truthy}
use usb_defense_system.Platform.{Platform}
use usb_defense_system.Files.{FileSystem}
use usb_defense_system.Daemon.State.{Daemon, Moment}
use usb_defense_system.Daemon.Throttle.{auth_locked_out}
use usb_defense_system.Daemon.Commands.{
  Command, status, list_whitelist, verify_password, add_whitelist_entry, remove_whitelist_entry,
  unlock_with_password, unlock_with_seed, simulate_event, unknown, command_of, get,
}
use usb_defense_system.Daemon.Commands.Access.{HasPassword, password_ok, password_ok_sound}
use usb_defense_system.Daemon.Commands.Unlocking.{
  HasCode, do_verify_password-same, do_add_whitelist_entry-locked, do_add_whitelist_entry-entries,
  do_remove_whitelist_entry-locked, do_remove_whitelist_entry-entries,
  do_unlock_with_password-refused, do_unlock_with_password-entries, do_unlock_with_password-locks,
  do_unlock_with_seed-credential, do_unlock_with_seed-entries, do_unlock_with_seed-locks,
}
use usb_defense_system.Daemon.Dispatch.{perform, dispatch, handle_ipc_command}
use usb_defense_system.Daemon.Dispatch.Simulated.{
  do_simulate_event-entries, do_simulate_event-credential,
}

module _ (P : Platform) (t : Moment) (msg : Fields) (d : Daemon) where
  abbrev before : FileSystem
  before = d.store.files

  perform-unlocks :
      (c : Command)
      → d.locked ≡ true
      → (perform P t c msg d).1.locked ≡ false
      → HasPassword P msg before ⊎ HasCode P msg before
  unfolding perform
  perform-unlocks status l u = cc
  perform-unlocks list_whitelist l u = cc
  perform-unlocks unknown l u = cc
  perform-unlocks verify_password l u = absurd (cc (do_verify_password-same P t msg d).0)
  perform-unlocks add_whitelist_entry l u = absurd (cc (do_add_whitelist_entry-locked P t msg d))
  perform-unlocks remove_whitelist_entry l u =
      absurd (cc (do_remove_whitelist_entry-locked P t msg d))
  perform-unlocks unlock_with_password l u = elim (Bool-cases (password_ok P msg before)) [
    | inl e ↦ inl (password_ok_sound P msg before e)
    | inr e ↦ absurd (cc (do_unlock_with_password-refused P t msg d e))
  ]
  perform-unlocks unlock_with_seed l u = inr (do_unlock_with_seed-credential P t msg d l u)
  perform-unlocks simulate_event l u = inl (do_simulate_event-credential P t msg d (λ e. cc)).1

  perform-locks :
      (c : Command)
      → d.locked ≡ false
      → (perform P t c msg d).1.locked ≡ true
      → (truthy d.config.simulator_enabled ≡ true) × HasPassword P msg before
  unfolding perform
  perform-locks status l u = absurd (cc)
  perform-locks list_whitelist l u = absurd (cc)
  perform-locks unknown l u = absurd (cc)
  perform-locks verify_password l u = absurd (cc (do_verify_password-same P t msg d).0)
  perform-locks add_whitelist_entry l u = absurd (cc (do_add_whitelist_entry-locked P t msg d))
  perform-locks remove_whitelist_entry l u =
      absurd (cc (do_remove_whitelist_entry-locked P t msg d))
  perform-locks unlock_with_password l u = absurd (cc (do_unlock_with_password-locks P t msg d l))
  perform-locks unlock_with_seed l u = absurd (cc (do_unlock_with_seed-locks P t msg d l))
  perform-locks simulate_event l u = do_simulate_event-credential P t msg d (λ e. cc)

  perform-entries :
      (c : Command)
      → (perform P t c msg d).1.store.entries ≢ d.store.entries
      → HasPassword P msg before
  unfolding perform
  perform-entries status n = absurd (n refl)
  perform-entries list_whitelist n = absurd (n refl)
  perform-entries unknown n = absurd (n refl)
  perform-entries verify_password n = absurd (n (do_verify_password-same P t msg d).1)
  perform-entries add_whitelist_entry n = elim (Bool-cases (password_ok P msg before)) [
    | inl e ↦ password_ok_sound P msg before e
    | inr e ↦ absurd (n (do_add_whitelist_entry-entries P t msg d e))
  ]
  perform-entries remove_whitelist_entry n = elim (Bool-cases (password_ok P msg before)) [
    | inl e ↦ password_ok_sound P msg before e
    | inr e ↦ absurd (n (do_remove_whitelist_entry-entries P t msg d e))
  ]
  perform-entries unlock_with_password n = absurd (n (do_unlock_with_password-entries P t msg d))
  perform-entries unlock_with_seed n = absurd (n (do_unlock_with_seed-entries P t msg d))
  perform-entries simulate_event n = absurd (n (do_simulate_event-entries P t msg d))

  -- A dispatch that changes the state has gone past the throttle.
  dispatch-performs :
      (c : Command)
      → ((dispatch P t c msg d).1 ≡ d)
        ⊎ ((auth_locked_out t d ≡ 0) × (dispatch P t c msg d ≡ perform P t c msg d))
  unfolding dispatch
  dispatch-performs c = ground arith

-- A command that a client sent as an object, past the throttle and with one of the credentials.
pub record IsAuthorized (P : Platform) (t : Moment) (msg : Json) (d : Daemon) : Type 0 where
  pub fields : Fields
  pub sent : msg ≡ obj fields
  pub allowed : auth_locked_out t d ≡ 0
  pub credential : HasPassword P fields d.store.files ⊎ HasCode P fields d.store.files

module _ (P : Platform) (t : Moment) where
  -- Where a handled message has changed the daemon's state, it was an object whose command ran.
  handled :
      (msg : Json) (d : Daemon)
      → (handle_ipc_command P t msg d).1 ≢ d
      → (fields : Fields) × (msg ≡ obj fields)
        × (auth_locked_out t d ≡ 0)
        × (handle_ipc_command P t msg d ≡ perform P t (command_of (get "cmd" fields)) fields d)
  unfolding handle_ipc_command
  handled (obj fields) d n = elim (dispatch-performs P t fields d (command_of (get "cmd" fields))) [
    | inl same ↦ absurd (n same)
    | inr (allowed, ran) ↦ (fields, refl, allowed, ran)
  ]
  handled null d n = absurd (n refl)
  handled _ d n = absurd (n refl)

  -- If a client's message ends a lockdown, then it was an object, the throttle let it through, and
  -- it carried the admin password or a valid recovery code. (This holds for every command, the
  -- simulator's included.)
  pub unlock_needs_credential :
      (msg : Json) (d : Daemon)
      → d.locked ≡ true
      → (handle_ipc_command P t msg d).1.locked ≡ false
      → IsAuthorized P t msg d
  unlock_needs_credential msg d l u =
      let (fields, sent, allowed, ran) =
        handled msg d (λ e. cc (ap (λ (x : Daemon). x.locked) e)) in
      record {
        fields = fields;
        sent = sent;
        allowed = allowed;
        credential = perform-unlocks P t fields d _ l (rw ran at u);
      }

  -- If a client's message changes the list of whitelist entries, then it was an object, the throttle
  -- let it through, and it carried the admin password.
  pub whitelist_needs_password :
      (msg : Json) (d : Daemon)
      → (handle_ipc_command P t msg d).1.store.entries ≢ d.store.entries
      → (fields : Fields) × (msg ≡ obj fields)
        × (auth_locked_out t d ≡ 0)
        × HasPassword P fields d.store.files
  whitelist_needs_password msg d n =
      let (fields, sent, allowed, ran) =
        handled msg d (λ e. n (ap (λ (x : Daemon). x.store.entries) e)) in
      (fields, sent, allowed, perform-entries P t fields d _ (rw ran at n))

  -- If a client's message starts a lockdown, then the simulator is enabled in the configuration and
  -- the message was an object with the admin password that the throttle let through.
  pub lock_needs_simulator :
      (msg : Json) (d : Daemon)
      → d.locked ≡ false
      → (handle_ipc_command P t msg d).1.locked ≡ true
      → (truthy d.config.simulator_enabled ≡ true)
        × ((fields : Fields) × (msg ≡ obj fields)
            × (auth_locked_out t d ≡ 0)
            × HasPassword P fields d.store.files)
  lock_needs_simulator msg d l u =
      let (fields, sent, allowed, ran) =
        handled msg d (λ e. cc (ap (λ (x : Daemon). x.locked) e)) in
      let (on, right) = perform-locks P t fields d _ l (rw ran at u) in
      (on, (fields, sent, allowed, right))
