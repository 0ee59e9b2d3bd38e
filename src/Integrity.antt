-- ===== src/Integrity.antt =====
-- usbguard_defense/integrity.py: the master key, and the signatures made with it.
pub mod Laws
use usb_defense_system.Prelude.{
  ℕ, Bool, true, false, not, [], ◌∷◌, ltb, if◌then◌else◌, Text, text_eq, strip, length,
}
use usb_defense_system.Exec.{Result, Exec, ok, err, pure, raise, gets, integrity_error, ◌>>=◌, ◌>>◌}
use usb_defense_system.Platform.{Platform}
use usb_defense_system.Files.{
  FileSystem, master_key_path, master_key_tmp, write, replace, chmod, must, may, exists, read_text,
  perms_too_loose,
}

abbrev pub key_bytes : ℕ
key_bytes = 32

module _ (P : Platform) where
  unfoldable pub create_key : Text → Exec FileSystem (Unit {0})
  create_key token = do
    must P (write master_key_tmp token)
    must P (replace master_key_tmp master_key_path)
    may P (chmod master_key_path 0o600)

  unfoldable pub checked_key : Exec FileSystem Text
  checked_key = do
    loose ← gets (perms_too_loose P master_key_path)
    if loose then raise integrity_error else do
      key ← read_text master_key_path
      if ltb (length key) 16 then raise integrity_error else pure key

  -- `token` is what `secrets.token_bytes(KEY_BYTES)` returns.
  unfoldable pub ensure_master_key : Text → Exec FileSystem Text
  ensure_master_key token = do
    present ← gets (λ fs. exists fs master_key_path)
    if present then pure tt else create_key token
    checked_key

  unfoldable pub sign : Text → Text → Text
  sign content key = P.hmac_hex key content

  unfoldable pub verify : Text → Text → Text → Bool
  unfolding sign
  verify content key [] = false
  verify content key (c ∷ s) = text_eq (sign content key) (strip (c ∷ s))
