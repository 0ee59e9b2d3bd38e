-- ===== src/Recovery.antt =====
-- usbguard_defense/recovery.py: the paper recovery code, kept as an argon2 hash and used once.
pub mod Code
pub mod Once
use usb_defense_system.Prelude.{
  ℕ, Bool, true, false, not, List, [], ◌∷◌, ◌++◌, ltb, ◌==◌, ◌&&◌, ◌||◌, if◌then◌else◌, Text, codes,
  is_space, upper, replace_char, strip, keep, take, drop,
}
use usb_defense_system.Exec.{
  Result, Exec, ok, err, pure, raise, gets, handle, is_os_error, recovery_error, ◌>>=◌, ◌>>◌,
}
use usb_defense_system.Platform.{Platform}
use usb_defense_system.Files.{
  FileSystem, FilePath, recovery_seed_hash_path, recovery_seed_hash_tmp, write, replace, chmod,
  unlink, must, may, exists, read_text, perms_too_loose, has_bytes,
}
use usb_defense_system.Auth.{check_stored}

abbrev pub crockford : Text
crockford = codes "0123456789ABCDEFGHJKMNPQRSTVWXYZ"

abbrev pub code_chars : ℕ
code_chars = 16

abbrev pub group : ℕ
group = 4

-- `"-".join(parts)`
abbrev pub join_dashes : List Text → Text
join_dashes [] = []
join_dashes (t ∷ []) = t
join_dashes (t ∷ u ∷ ts) = t ++ (b'-' ∷ join_dashes (u ∷ ts))

-- `[raw[i:i + GROUP] for i in range(0, CODE_CHARS, GROUP)]`
abbrev pub groups : Text → List Text
groups raw =
    take group raw
    ∷ take group (drop 4 raw)
    ∷ take group (drop 8 raw)
    ∷ take group (drop 12 raw)
    ∷ []

unfoldable pub display : Text → Text
display raw = join_dashes (groups raw)

-- The characters that `_normalize` keeps.
abbrev pub is_significant : ℕ → Bool
is_significant ch = not (is_space ch) && not (ch == b'-')

unfoldable pub normalize : Text → Text
unfolding is_space upper replace_char
normalize code =
    let s = upper (keep is_significant code) in
    replace_char b'U' b'V'
      (replace_char b'L' b'1' (replace_char b'I' b'1' (replace_char b'O' b'0' s)))

module _ (P : Platform) where
  -- `raw` holds what the calls of `secrets.choice` return; `salt` is the salt of the hash.
  unfoldable pub generate_new : Text → Text → Exec FileSystem Text
  generate_new raw salt = do
    must P (write recovery_seed_hash_tmp (P.hash (normalize (display raw)) salt))
    must P (replace recovery_seed_hash_tmp recovery_seed_hash_path)
    may P (chmod recovery_seed_hash_path 0o600)
    pure (display raw)

  unfoldable pub verify_and_consume : Text → Exec FileSystem Bool
  unfolding check_stored
  verify_and_consume code = do
    present ← gets (λ fs. exists fs recovery_seed_hash_path)
    if not present then pure false else do
      loose ← gets (perms_too_loose P recovery_seed_hash_path)
      if loose then raise recovery_error else do
        stored ← handle is_os_error [] (read_text recovery_seed_hash_path)
        right ← check_stored P (strip stored) (normalize code)
        if right then (may P (unlink recovery_seed_hash_path) >> pure true) else pure false

-- `path.exists() and path.stat().st_size > 0`
unfoldable pub is_set : FileSystem → Bool
is_set fs = has_bytes (fs recovery_seed_hash_path)
