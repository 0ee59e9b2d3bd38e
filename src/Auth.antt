-- ===== src/Auth.antt =====
-- usbguard_defense/auth.py: the admin password, kept as an argon2 hash.
pub mod Laws
use usb_defense_system.Prelude.{
  ℕ, Bool, true, false, not, [], ◌∷◌, ltb, ◌&&◌, if◌then◌else◌, Text, text_eq, strip, length,
}
use usb_defense_system.Exec.{
  Result, Exec, ok, err, pure, raise, gets, handle, is_os_error, auth_error, runtime_error, ◌>>=◌,
  ◌>>◌,
}
use usb_defense_system.Platform.{Platform, Verdict, matches, mismatch, invalid_hash, failed}
use usb_defense_system.Files.{
  FileSystem, FilePath, admin_hash_path, admin_hash_tmp, write, replace, chmod, must, may, exists,
  read_text, perms_too_loose, has_bytes,
}

abbrev pub min_password_len : ℕ
min_password_len = 8

-- The two `except` clauses; another exception of `verify` goes to the caller.
abbrev pub accepted : Verdict → Exec FileSystem Bool
accepted matches = pure true
accepted mismatch = pure false
accepted invalid_hash = pure false
accepted failed = raise runtime_error

module _ (P : Platform) where
  -- `salt` is the salt that `PasswordHasher.hash` draws.
  unfoldable pub set_admin_password : Text → Text → Exec FileSystem (Unit {0})
  set_admin_password salt password =
      if ltb (length password) min_password_len then raise auth_error else do
        must P (write admin_hash_tmp (P.hash password salt))
        must P (replace admin_hash_tmp admin_hash_path)
        may P (chmod admin_hash_path 0o600)

  -- `_HASHER.verify(stored, text)` for a stored hash that may be empty
  unfoldable pub check_stored : Text → Text → Exec FileSystem Bool
  check_stored [] text = pure false
  check_stored (c ∷ s) text = accepted (P.verify_hash (c ∷ s) text)

  unfoldable pub verify_admin_password : Text → Exec FileSystem Bool
  unfolding check_stored
  verify_admin_password password = do
    present ← gets (λ fs. exists fs admin_hash_path)
    if not present then pure false else do
      loose ← gets (perms_too_loose P admin_hash_path)
      if loose then raise auth_error else do
        stored ← handle is_os_error [] (read_text admin_hash_path)
        check_stored (strip stored) password

-- `path.exists() and path.stat().st_size > 0`
unfoldable pub is_admin_password_set : FileSystem → Bool
is_admin_password_set fs = has_bytes (fs admin_hash_path)
