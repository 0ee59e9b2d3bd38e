-- ===== src/Auth/Laws.antt =====
-- `set_admin_password` and `verify_admin_password` of auth.py, one after the other.
use usb_defense_system.Prelude.{
  ◌<◌, ◌≤◌, ◌≡◌, refl, ap, if◌then◌else◌, Bool, true, false, [], ◌∷◌, Text, strip, length, arith,
  ◌≢◌, some,
}
use usb_defense_system.Exec.{Result, ok, err, auth_error}
use usb_defense_system.Platform.{Platform, matches, mismatch}
use usb_defense_system.Files.{
  File, is_immutable, admin_hash_tmp, FileSystem, admin_hash_path, exists, perms_too_loose,
}
use usb_defense_system.Auth.{
  set_admin_password, verify_admin_password, is_admin_password_set, min_password_len,
}

module _ (P : Platform) where
  -- `set_admin_password` refuses a password of fewer than `min_password_len` characters with an
  -- `AuthError`, and then changes no file.
  pub set_admin_password_short :
      (salt password : Text) (fs : FileSystem)
      → length password < min_password_len
      → set_admin_password P salt password fs ≡ (err auth_error, fs)
  unfolding set_admin_password
  set_admin_password_short salt password fs h = ground arith

  abbrev stored_file : Text → File
  stored_file encoded = record { content = encoded; mode = 0o600; immutable = false }

  set_admin_password-file :
      (salt password : Text) (fs : FileSystem) {fs' : FileSystem}
      → P.chmod_ok ≡ true
      → set_admin_password P salt password fs ≡ (ok tt, fs')
      → fs' admin_hash_path ≡ some (stored_file (P.hash password salt))
  unfolding set_admin_password
  set_admin_password-file salt password fs {fs'} c h =
      ground (arith, ap (λ (r : Result (Unit {0}) × FileSystem). r.1 admin_hash_path) h)

  verify_stored :
      (encoded guess : Text) (fs : FileSystem) (answer : Bool)
      → encoded ≢ []
      → strip encoded ≡ encoded
      → P.verify_hash encoded guess ≡ (if answer then matches else mismatch)
      → fs admin_hash_path ≡ some (stored_file encoded)
      → (is_admin_password_set fs ≡ true) × (verify_admin_password P guess fs ≡ (ok answer, fs))
  unfolding verify_admin_password is_admin_password_set
  verify_stored [] guess fs answer n s v f = absurd (n refl)
  verify_stored (c ∷ encoded) guess fs true n s v f = (rw f, ground (arith, f, s, v))
  verify_stored (c ∷ encoded) guess fs false n s v f = (rw f, ground (arith, f, s, v))

  set_admin_password-ok :
      (salt password : Text) (fs : FileSystem)
      → min_password_len ≤ length password
      → is_immutable (fs admin_hash_tmp) ≡ false
      → is_immutable (fs admin_hash_path) ≡ false
      → (set_admin_password P salt password fs).0 ≡ ok tt
  unfolding set_admin_password
  set_admin_password-ok salt password fs l i j = ground (arith, l, i, j)

  -- For a password of at least `min_password_len` characters, where `chmod` is permitted, neither
  -- the hash file nor its temporary file is immutable, and argon2's encoding is not empty and has no
  -- white space around it: `set_admin_password` succeeds, the hash file is then reported as set, and
  -- `verify_admin_password` of any text returns what argon2 says of that text and that encoding
  -- (true for a match, false for a mismatch) and changes no file.
  pub verify-set_admin_password :
      (salt password guess : Text) (fs : FileSystem) (answer : Bool)
      → min_password_len ≤ length password
      → is_immutable (fs admin_hash_tmp) ≡ false
      → is_immutable (fs admin_hash_path) ≡ false
      → P.chmod_ok ≡ true
      → P.hash password salt ≢ []
      → strip (P.hash password salt) ≡ P.hash password salt
      → P.verify_hash (P.hash password salt) guess ≡ (if answer then matches else mismatch)
      → let (r, fs') = set_admin_password P salt password fs in
        (r ≡ ok tt)
        × (is_admin_password_set fs' ≡ true)
        × (verify_admin_password P guess fs' ≡ (ok answer, fs'))
  verify-set_admin_password salt password guess fs answer l i j c n s v =
      let fs' = (set_admin_password P salt password fs).1 in
      let done = set_admin_password-ok salt password fs l i j in
      let (is_set, answered) = verify_stored (P.hash password salt) guess fs' answer n s v (
        set_admin_password-file salt password fs c
          (ap (λ (r : Result (Unit {0})). (r, fs')) done)) in
      (done, is_set, answered)

  -- While the hash file exists and its permissions are open to group or others on a POSIX host,
  -- every password is refused with an `AuthError`, and no file changes.
  pub verify_admin_password_insecure :
      (password : Text) (fs : FileSystem)
      → exists fs admin_hash_path ≡ true
      → perms_too_loose P admin_hash_path fs ≡ true
      → verify_admin_password P password fs ≡ (err auth_error, fs)
  unfolding verify_admin_password
  verify_admin_password_insecure password fs e l = ground arith

  pub verify_admin_password-state :
      (password : Text) (fs : FileSystem) → (verify_admin_password P password fs).1 ≡ fs
  unfolding verify_admin_password
  verify_admin_password-state password fs = ground arith
