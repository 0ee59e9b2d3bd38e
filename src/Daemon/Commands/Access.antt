-- ===== src/Daemon/Commands/Access.antt =====
-- `_check_password`, as a function of the message and the files.
use usb_defense_system.Prelude.{◌≡◌, refl, ap, Bool, true, false, Option, none, some, [], ◌∷◌, Text}
use mathlib.Core.Path.{ap₂}
use usb_defense_system.Json.{Json, bool, int, arr, str, obj, Fields, lookup, null}
use usb_defense_system.Exec.{Result, ok, err, handle, any_error}
use usb_defense_system.Platform.{Platform}
use usb_defense_system.Files.{FileSystem}
use usb_defense_system.Auth.{verify_admin_password}
use usb_defense_system.Auth.Laws.{verify_admin_password-state}
use usb_defense_system.Daemon.State.{Daemon, get_field, on_files, with_files}
use usb_defense_system.Daemon.Throttle.{check_password, checked}

-- The message carries a text password that the stored hash accepts.
pub record HasPassword (P : Platform) (msg : Fields) (fs : FileSystem) : Type 0 where
  pub password : Text
  pub given : lookup "password" msg ≡ some (str password)
  pub accepted : verify_admin_password P password fs ≡ (ok true, fs)

abbrev or_false : Result Bool → Bool
or_false (ok b) = b
or_false (err e) = false

abbrev right_password : Platform → Json → FileSystem → Bool
right_password P (str (c ∷ s)) fs = or_false (verify_admin_password P (c ∷ s) fs).0
right_password P (str []) fs = false
right_password P _ fs = false

-- The answer of `_check_password`, as a function of the message and the files.
unfoldable pub password_ok : Platform → Fields → FileSystem → Bool
password_ok P msg fs = right_password P (get_field (lookup "password" msg) null) fs

module _ (P : Platform) where
  handled-eq :
      (r : Result Bool × FileSystem) (d : Daemon)
      → r.1 ≡ d.store.files
      → handle any_error false (on_files (λ _. r)) d ≡ (ok (or_false r.0), d)
  handled-eq (ok b, fs) d e = ap (λ (f : FileSystem). (ok b, with_files f d)) e
  handled-eq (err x, fs) d e = ap (λ (f : FileSystem). (ok false, with_files f d)) e

  checked-eq : (j : Json) (d : Daemon) → checked P j d ≡ (ok (right_password P j d.store.files), d)
  checked-eq (str []) d = refl
  checked-eq (str (c ∷ s)) d =
      handled-eq (verify_admin_password P (c ∷ s) d.store.files) d
        (verify_admin_password-state P (c ∷ s) d.store.files)
  checked-eq _ d = refl

  -- Checking a password never raises, and changes nothing.
  pub check_password-eq :
      (msg : Fields) (d : Daemon)
      → check_password P msg d ≡ (ok (password_ok P msg d.store.files), d)
  unfolding check_password password_ok
  check_password-eq msg d = checked-eq (get_field (lookup "password" msg) null) d

  accepted-true :
      (password : Text) (fs : FileSystem)
      → or_false (verify_admin_password P password fs).0 ≡ true
      → verify_admin_password P password fs ≡ (ok true, fs)
  accepted-true password fs h =
      pair (verify_admin_password P password fs) (verify_admin_password-state P password fs) h
    where
      pair : (r : Result Bool × FileSystem) → r.1 ≡ fs → or_false r.0 ≡ true → r ≡ (ok true, fs)
      pair (ok b, f) e k = ap₂ (λ (b : Bool) (f : FileSystem). (ok b, f)) k e
      pair (err x, f) e k = cc

  right_password-found :
      (o : Option Json) (msg : Fields) (fs : FileSystem)
      → lookup "password" msg ≡ o
      → right_password P (get_field o null) fs ≡ true
      → HasPassword P msg fs
  right_password-found (some (str (c ∷ s))) msg fs e h = record {
    password = c ∷ s;
    given = e;
    accepted = accepted-true (c ∷ s) fs h;
  }
  right_password-found (some (str [])) msg fs e h = cc
  right_password-found (some null) msg fs e h = cc
  right_password-found (some (bool b)) msg fs e h = cc
  right_password-found (some (int n)) msg fs e h = cc
  right_password-found (some (arr xs)) msg fs e h = cc
  right_password-found (some (obj fields)) msg fs e h = cc
  right_password-found none msg fs e h = cc

  -- A message counts as right exactly by a text password that argon2 accepts for the stored hash.
  pub password_ok_sound :
      (msg : Fields) (fs : FileSystem) → password_ok P msg fs ≡ true → HasPassword P msg fs
  unfolding password_ok
  password_ok_sound msg fs h = right_password-found (lookup "password" msg) msg fs refl h
