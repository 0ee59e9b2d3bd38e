-- ===== src/Exec.antt =====
-- Python exceptions as results, and methods that change a state and may raise: what was written
-- before a raise stays written.
use usb_defense_system.Prelude.{Bool, true, false}

pub data Error : Type 0 where
  attribute_error type_error value_error os_error : Error
  auth_error integrity_error recovery_error runtime_error system_exit key_error : Error

pub data Result {ℓ} (A : Type ℓ) : Type ℓ where
  ok : A → Result A
  err : Error → Result A

abbrev pub Exec : Type 0 → Type 0 → Type 0
Exec S A = S → Result A × S

module _ {S A : Type 0} where
  abbrev pub pure : A → Exec S A
  pure a s = (ok a, s)

  abbrev pub raise : Error → Exec S A
  raise e s = (err e, s)

  abbrev pub lift : Result A → Exec S A
  lift r s = (r, s)

  abbrev pub gets : (S → A) → Exec S A
  gets f s = (ok (f s), s)

module _ {S : Type 0} where
  abbrev pub modify : (S → S) → Exec S (Unit {0})
  modify f s = (ok tt, f s)

  -- `if test: m`
  abbrev pub when : Bool → Exec S (Unit {0}) → Exec S (Unit {0})
  when true m = m
  when false m = pure tt

module _ {S A B : Type 0} where
  abbrev pub continue : Result A → (A → Exec S B) → Exec S B
  continue (ok a) f s = f a s
  continue (err e) f s = (err e, s)

  infixl 5 ◌>>=◌ ◌>>◌
  abbrev pub ◌>>=◌ : Exec S A → (A → Exec S B) → Exec S B
  ◌>>=◌ m f s = continue (m s).0 f (m s).1

  abbrev pub ◌>>◌ : Exec S A → Exec S B → Exec S B
  m >> n = m >>= λ _. n

module _ {S A : Type 0} where
  -- `try: m except: m = default`, for the errors that the test accepts
  abbrev pub handle : (Error → Bool) → A → Exec S A → Exec S A
  handle caught default m s = handled (m s).0 (m s).1
    where
      handled : Result A → Exec S A
      handled (ok a) s' = (ok a, s')
      handled (err e) s' = elim (caught e) [ true ↦ (ok default, s') | false ↦ (err e, s') ]

abbrev pub any_error : Error → Bool
any_error e = true

abbrev pub is_os_error : Error → Bool
is_os_error os_error = true
is_os_error _ = false

module _ {A B : Type 0} where
  -- A step of a computation that changes no state.
  abbrev pub then_do : Result A → (A → Result B) → Result B
  then_do (ok a) f = f a
  then_do (err e) f = err e
