-- ===== src/Daemon/Broadcasts/Unlocking.antt =====
-- The commands that unlock.
use usb_defense_system.Prelude.{
  List, refl, sym, Bool, true, false, String, arith, [], if◌then◌else◌, codes,
}
use mathlib.Core.Path.{subst}
use usb_defense_system.Json.{Json, null, str, field, end, Fields, lit}
use usb_defense_system.Exec.{continue, Result, ok, err}
use usb_defense_system.Platform.{Platform}
use usb_defense_system.EventLog
use usb_defense_system.Config.{Config}
use usb_defense_system.Daemon.State.{Daemon, Moment, log_event}
use usb_defense_system.Daemon.Throttle.{record_auth_failure, record_auth_success}
use usb_defense_system.Daemon.Lockdown.{clear_lockdown, record_intrusion}
use usb_defense_system.Daemon.Lockdown.Consistency.{IsConsistent, SameLock, same_lock}
use usb_defense_system.Daemon.Commands.{
  do_unlock_with_password, do_unlock_with_seed, failed_unlock, successful_unlock, password_unlock,
  seed_unlock, check_code, get_or,
}
use usb_defense_system.Daemon.Commands.Access.{password_ok, check_password-eq}
use usb_defense_system.Daemon.Commands.Consistency.{check_code-lock, then_pure}
use usb_defense_system.Daemon.Broadcasts.{IsTold, silent}
use usb_defense_system.Daemon.Broadcasts.Lockdown.{clear_lockdown-IsTold, record_intrusion-IsTold}

module _ (P : Platform) (t : Moment) {past : List Json} {b : Bool} where
  failed_unlock-IsTold :
      (op method kind detail : String) (d : Daemon)
      → IsTold past b d
      → IsTold past b (failed_unlock P t op method kind detail d).1
  unfolding record_auth_failure
  failed_unlock-IsTold op method kind detail d told = by_lock noted.locked
    where
      noted : Daemon
      noted =
          log_event P t "UNLOCK_AUTH_FAILURE" (field "method" (lit method) end)
            (record_auth_failure P t op d)

      ready : IsTold past b noted
      ready = silent d noted (ground arith) (ground arith) told

      by_lock :
          (l : Bool)
          → IsTold past b (if l then record_intrusion P t kind (codes detail) end noted else noted)
      by_lock true = record_intrusion-IsTold P t kind (codes detail) end noted ready
      by_lock false = ready

  successful_unlock-IsTold :
      {c : Config} (op method reason : String) (warn : Bool) (d : Daemon)
      → IsConsistent P c d
      → IsTold past b d
      → IsTold past b (successful_unlock P t op method reason warn d).1
  unfolding record_auth_success EventLog.write
  successful_unlock-IsTold op method reason warn d h told =
      let ready =
        log_event P t "UNLOCK_SUCCESS" (field "method" (lit method) end) (record_auth_success d) in
      let same : SameLock d ready = ground arith in
      subst (IsTold past b) (sym (then_pure P t (clear_lockdown P (lit reason) null warn) _ ready))
        (clear_lockdown-IsTold P (lit reason) null warn ready (same_lock P d ready same h)
          (silent d ready refl refl told))

  pub do_unlock_with_password-IsTold :
      {c : Config} (msg : Fields) (d : Daemon)
      → IsConsistent P c d
      → IsTold past b d
      → IsTold past b (do_unlock_with_password P t msg d).1
  unfolding do_unlock_with_password
  do_unlock_with_password-IsTold msg d h told =
      subst (λ (r : Result Bool × Daemon). IsTold past b (continue r.0 (password_unlock P t) r.1).1)
        (sym (check_password-eq P msg d)) (by_password (password_ok P msg d.store.files))
    where
      by_password : (right : Bool) → IsTold past b (password_unlock P t right d).1
      by_password true =
          successful_unlock-IsTold "unlock_with_password" "password" "admin password" false d h told
      by_password false =
          failed_unlock-IsTold "unlock_with_password" "password" "WRONG_PASSWORD"
            "Failed admin-password unlock attempt" d told

  seed_unlock-IsTold :
      {c : Config} (right : Bool) (d : Daemon)
      → IsConsistent P c d
      → IsTold past b d
      → IsTold past b (seed_unlock P t right d).1
  seed_unlock-IsTold true d h told =
      successful_unlock-IsTold "unlock_with_seed" "paper_code" "paper recovery code" true d h told
  seed_unlock-IsTold false d h told =
      failed_unlock-IsTold "unlock_with_seed" "paper_code" "WRONG_RECOVERY_CODE"
        "Failed paper-recovery-code unlock attempt" d told

  check_code-IsTold :
      (code : Json) (d : Daemon) → IsTold past b d → IsTold past b (check_code P t code d).1
  check_code-IsTold (str code) d told = silent d (check_code P t (str code) d).1 refl refl told
  check_code-IsTold _ d told = told

  pub do_unlock_with_seed-IsTold :
      {c : Config} (msg : Fields) (d : Daemon)
      → IsConsistent P c d
      → IsTold past b d
      → IsTold past b (do_unlock_with_seed P t msg d).1
  unfolding do_unlock_with_seed
  do_unlock_with_seed-IsTold {c} msg d h told =
      after (check_code P t (get_or "code" (str []) msg) d)
        (same_lock P d (check_code P t (get_or "code" (str []) msg) d).1
          (check_code-lock P t (get_or "code" (str []) msg) d) h)
        (check_code-IsTold (get_or "code" (str []) msg) d told)
    where
      after :
          (r : Result Bool × Daemon)
          → IsConsistent P c r.1
          → IsTold past b r.1
          → IsTold past b (continue r.0 (seed_unlock P t) r.1).1
      after (ok right, d') k told' = seed_unlock-IsTold right d' k told'
      after (err e, d') k told' = told'
