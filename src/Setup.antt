-- ===== src/Setup.antt =====
-- scripts/setup.py: the first-run ceremony.
pub mod Reset
pub mod Once
use usb_defense_system.Prelude.{
  Bool, true, false, not, ◌&&◌, ◌||◌, Option, none, some, List, [], ◌∷◌, Text, text_eq, ltb, length,
  if◌then◌else◌,
}
use usb_defense_system.Exec.{Exec, pure, raise, gets, when, lift, ok, err, system_exit, ◌>>=◌, ◌>>◌}
use usb_defense_system.Platform.{Platform}
use usb_defense_system.Files.{
  FileSystem, FilePath, Call, required, run_calls, write, replace, chmod, unlink, must, exists,
  admin_hash_path, master_key_path, recovery_seed_hash_path, whitelist_path, whitelist_sig_path,
  whitelist_tmp, whitelist_sig_tmp,
}
use usb_defense_system.Integrity.{ensure_master_key, sign}
use usb_defense_system.Auth.{min_password_len, set_admin_password, is_admin_password_set}
use usb_defense_system.Recovery
use usb_defense_system.Recovery.{generate_new}
use usb_defense_system.Whitelist.{document}

-- `_prompt_password`, on what is typed: pairs of a password and its repetition. `none` where the
-- input ends before a pair is accepted. (A password that is too short is not repeated; what stands
-- beside it is not read.)
unfoldable pub prompt_password : List (Text × Text) → Option Text
prompt_password [] = none
prompt_password ((pw, confirm) ∷ rest) =
    let more = prompt_password rest in
    if ltb (length pw) min_password_len
    then more
    else if not (text_eq pw confirm)
    then more
    else some pw

-- What is random in one run: the salts, the master key, the characters of the recovery code.
pub record Randomness : Type 0 where
  pub salt : Text
  pub token : Text
  pub raw : Text
  pub code_salt : Text

abbrev pub has_secrets : FileSystem → Bool
has_secrets fs = is_admin_password_set fs || exists fs master_key_path || Recovery.is_set fs

module _ (P : Platform) where
  abbrev pub empty_payload : Text
  empty_payload = P.dumps (document [])

  -- The calls of `_init_signed_whitelist` past its early return.
  unfoldable pub init_calls : Text → List Call
  init_calls key =
      required (write whitelist_tmp empty_payload)
      ∷ required (replace whitelist_tmp whitelist_path)
      ∷ required (chmod whitelist_path 0o600)
      ∷ required (write whitelist_sig_tmp (sign P empty_payload key))
      ∷ required (replace whitelist_sig_tmp whitelist_sig_path)
      ∷ required (chmod whitelist_sig_path 0o600)
      ∷ []

  unfoldable pub init_signed_whitelist : Text → Exec FileSystem (Unit {0})
  init_signed_whitelist key fs =
      if exists fs whitelist_path && exists fs whitelist_sig_path
      then (ok tt, fs)
      else run_calls P (init_calls key) fs

  abbrev forget : FilePath → Exec FileSystem (Unit {0})
  forget p fs = if exists fs p then must P (unlink p) fs else (ok tt, fs)

  unfoldable pub forget_secrets : Exec FileSystem (Unit {0})
  forget_secrets = do
    forget admin_hash_path
    forget master_key_path
    forget recovery_seed_hash_path
    forget whitelist_sig_path

  abbrev pub typed : Option Text → Exec FileSystem Text
  typed none = raise system_exit
  typed (some pw) = pure pw

  -- The four steps.
  unfoldable pub ceremony : Randomness → List (Text × Text) → Exec FileSystem Text
  ceremony r answers = do
    pw ← typed (prompt_password answers)
    set_admin_password P r.salt pw
    key ← ensure_master_key P r.token
    init_signed_whitelist key
    generate_new P r.raw r.code_salt

  -- `cmd_setup`, with the code that it displays
  unfoldable pub cmd_setup : Bool → Bool → Randomness → List (Text × Text) → Exec FileSystem Text
  cmd_setup root reset r answers = do
    when (not root) (raise system_exit)
    present ← gets has_secrets
    when (present && not reset) (raise system_exit)
    when reset forget_secrets
    ceremony r answers

  -- `cmd_regenerate_recovery`
  unfoldable pub cmd_regenerate_recovery : Bool → Randomness → Exec FileSystem Text
  cmd_regenerate_recovery root r = do
    when (not root) (raise system_exit)
    present ← gets is_admin_password_set
    when (not present) (raise system_exit)
    generate_new P r.raw r.code_salt
