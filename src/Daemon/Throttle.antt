-- ===== src/Daemon/Throttle.antt =====
-- `_check_password`, and the throttle of the `Daemon` class: `_auth_locked_out`,
-- `_record_auth_failure`, `_record_auth_success`. The monotonic clock counts whole seconds.
pub mod Schedule
use usb_defense_system.Prelude.{
  ℕ, ◌+◌, ◌-◌, ◌*◌, ◌^◌, Bool, true, false, String, if◌then◌else◌, leb, [], ◌∷◌,
}
use usb_defense_system.Json.{Json, str, lit, num, field, end, lookup, Fields, null}
use usb_defense_system.Exec.{Result, Exec, any_error, handle, pure}
use usb_defense_system.Platform.{Platform}
use usb_defense_system.Auth.{verify_admin_password}
use usb_defense_system.Daemon.State.{Daemon, Moment, on_files, log_event, get_field}

abbrev pub auth_failure_threshold : ℕ
auth_failure_threshold = 5

abbrev pub auth_lockout_seconds : ℕ
auth_lockout_seconds = 60

-- Remaining seconds, or 0 if attempts are allowed.
abbrev pub auth_locked_out : Moment → Daemon → ℕ
auth_locked_out t d = d.auth_lockout_until - t.monotonic

abbrev lockout_wait : ℕ → ℕ
lockout_wait n = auth_lockout_seconds * 2 ^ (n - auth_failure_threshold)

abbrev engage_lockout : Platform → Moment → String → ℕ → Daemon → Daemon
engage_lockout P t op n d =
    log_event P t "AUTH_LOCKOUT"
      (field "op" (lit op)
        (field "failures" (num n) (field "lockout_seconds" (num (lockout_wait n)) end)))
      (record d { auth_lockout_until = t.monotonic + lockout_wait n })

unfoldable pub record_auth_failure : Platform → Moment → String → Daemon → Daemon
record_auth_failure P t op d =
    let n = d.auth_failures + 1 in
    let counted : Daemon = record d { auth_failures = n } in
    if leb auth_failure_threshold n then engage_lockout P t op n counted else counted

unfoldable pub record_auth_success : Daemon → Daemon
record_auth_success d = record d { auth_failures = 0; auth_lockout_until = 0 }

module _ (P : Platform) where
  abbrev pub checked : Json → Exec Daemon Bool
  checked (str []) = pure false
  checked (str (c ∷ s)) = handle any_error false (on_files (verify_admin_password P (c ∷ s)))
  checked _ = pure false

  -- A message with no password, with one that is no text or is empty, and any error of the check
  -- count as a wrong password.
  unfoldable pub check_password : Fields → Exec Daemon Bool
  check_password msg = checked (get_field (lookup "password" msg) null)
