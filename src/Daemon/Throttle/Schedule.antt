-- ===== src/Daemon/Throttle/Schedule.antt =====
-- The lockouts of `_record_auth_failure`, one failure after the other.
use usb_defense_system.Prelude.{
  ℕ, zero, suc, ◌+◌, ◌-◌, ◌*◌, ◌^◌, ◌≤◌, ◌<◌, ◌≡◌, String, if◌then◌else◌, leb, arith,
}
use mathlib.Core.Path.{ap, ◌∙◌}
use native.Mathlib.Nat.{pow-suc}
use usb_defense_system.Platform.{Platform}
use usb_defense_system.Daemon.State.{Daemon, Moment}
use usb_defense_system.Daemon.Throttle.{record_auth_failure, auth_locked_out}

-- The time that must have passed after `n` wrong attempts before another is allowed.
abbrev pub total_wait : ℕ → ℕ
total_wait n = if leb 5 n then 60 * (2 ^ (n - 4) - 1) else 0

double_wait : (k u : ℕ) → 60 * (2 ^ k - 1) ≤ u → 60 * (2 ^ suc k - 1) ≤ u + 60 * 2 ^ k
double_wait k u h = rw (pow-suc 2 k) (omega arith)

late_wait :
    (n u : ℕ)
    → 5 ≤ n
    → 60 * (2 ^ (n - 4) - 1) ≤ u
    → 60 * (2 ^ (suc n - 4) - 1) ≤ u + 60 * 2 ^ (n + 1 - 5)
late_wait n u h w =
    let a : suc n - 4 ≡ suc (n - 4) = omega arith in
    let b : n + 1 - 5 ≡ n - 4 = omega arith in rw (a, b) (double_wait (n - 4) u w)

-- One more failure, let through at the time `u`.
wait_step :
    (n u w : ℕ)
    → total_wait n ≤ u
    → total_wait (suc n) ≤ (if leb 5 (n + 1) then u + 60 * 2 ^ (n + 1 - 5) else w)
wait_step zero u w h = omega arith
wait_step (suc zero) u w h = omega arith
wait_step (suc (suc zero)) u w h = omega arith
wait_step (suc (suc (suc zero))) u w h = omega arith
wait_step (suc (suc (suc (suc zero)))) u w h = omega arith
wait_step (suc (suc (suc (suc (suc m))))) u w h =
    ground (arith, late_wait (suc (suc (suc (suc (suc m))))) u)

module _ (P : Platform) where
  -- A failure counts one more. From the fifth on the lockout lasts 60 seconds times two to the
  -- number of failures past the fifth; below the fifth the lockout time is left as it was.
  pub record_auth_failure_lem :
      (t : Moment) (op : String) (d : Daemon)
      → let d' = record_auth_failure P t op d in
        (d'.auth_failures ≡ d.auth_failures + 1)
        × (d'.auth_lockout_until ≡ (
            if leb 5 (d.auth_failures + 1)
            then t.monotonic + 60 * 2 ^ (d.auth_failures + 1 - 5)
            else d.auth_lockout_until))
        × (d'.locked ≡ d.locked)
        × (d'.store.entries ≡ d.store.entries)
  unfolding record_auth_failure
  record_auth_failure_lem t op d = ground arith

  -- Wrong attempts one after the other, each made at a moment when attempts are allowed.
  pub data Guesses (d : Daemon) : ℕ → Daemon → Type 0 where
    none_yet : Guesses d 0 d
    guess :
        {n : ℕ} {e : Daemon} (t : Moment) (op : String)
        → Guesses d n e
        → auth_locked_out t e ≡ 0
        → Guesses d (suc n) (record_auth_failure P t op e)

  Guesses-wait :
      {d e : Daemon} {n : ℕ}
      → d.auth_failures ≡ 0
      → Guesses d n e
      → (e.auth_failures ≡ n) × (total_wait n ≤ e.auth_lockout_until)
  Guesses-wait z none_yet = (z, omega arith)
  Guesses-wait z (guess {n} {e} t op g allowed) =
      let (count, waited) = Guesses-wait z g in
      let (more, until, _, _) = record_auth_failure_lem t op e in
      (
        more ∙ ap (λ (k : ℕ). k + 1) count ∙ omega arith,
        rw (until, count) (wait_step n t.monotonic _ (omega arith)),
      )

  -- From a daemon with no failures counted, after `n` wrong attempts that were all let through, no
  -- further attempt is let through while the clock is below `60 * (2 ^ (n - 4) - 1)` seconds, for
  -- `n` of at least 5: each further guess doubles the time that guessing takes.
  pub Guesses-slow :
      {d e : Daemon} {n : ℕ} (t : Moment)
      → d.auth_failures ≡ 0
      → Guesses d n e
      → t.monotonic < total_wait n
      → 0 < auth_locked_out t e
  Guesses-slow t z g early = omega (arith, (Guesses-wait z g).1)
