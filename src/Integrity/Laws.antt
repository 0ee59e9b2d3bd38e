-- ===== src/Integrity/Laws.antt =====
-- The functions of integrity.py: repeated calls, and which signatures are accepted.
use usb_defense_system.Prelude.{◌≡◌, true, [], ◌∷◌, Text, text_eq_iff, strip, arith, ◌↔◌, ◌≢◌}
use usb_defense_system.Exec.{ok}
use usb_defense_system.Platform.{Platform}
use usb_defense_system.Files.{FileSystem, master_key_path, exists}
use usb_defense_system.Integrity.{ensure_master_key, checked_key, create_key, sign, verify}

module _ (P : Platform) where
  exists-checked_key :
      (fs : FileSystem) {key : Text} {fs' : FileSystem}
      → checked_key P fs ≡ (ok key, fs')
      → exists fs' master_key_path ≡ true
  unfolding checked_key
  exists-checked_key fs h = ground arith

  checked_key-state : (fs : FileSystem) → (checked_key P fs).1 ≡ fs
  unfolding checked_key
  checked_key-state fs = ground arith

  ensure-checked_key :
      (token : Text) (fs : FileSystem) {fs' : FileSystem} {key : Text}
      → ensure_master_key P token fs ≡ (ok key, fs')
      → checked_key P fs' ≡ (ok key, fs')
  unfolding ensure_master_key
  ensure-checked_key token fs h =
      ground (arith, checked_key-state fs, checked_key-state (create_key P token fs).1)

  -- A key that `ensure_master_key` has returned is the key that every later call returns, whatever
  -- random bytes it is given, and the later call changes no file.
  pub ensure_master_key_stable :
      (token token' : Text) (fs fs' : FileSystem) (key : Text)
      → ensure_master_key P token fs ≡ (ok key, fs')
      → ensure_master_key P token' fs' ≡ (ok key, fs')
  unfolding ensure_master_key
  ensure_master_key_stable token token' fs fs' key h =
      ground (
        arith,
        ensure-checked_key token fs h,
        exists-checked_key fs' (ensure-checked_key token fs h),
      )

  -- `verify` accepts a signature exactly when it is not empty and, stripped, is the HMAC of the
  -- content under the key.
  pub verify_iff :
      (content key signature : Text)
      → (verify P content key signature ≡ true)
        ↔ ((signature ≢ []) × (strip signature ≡ sign P content key))
  unfolding verify
  verify_iff content key [] = ground arith
  verify_iff content key (c ∷ s) =
      ground (arith, text_eq_iff (P.hmac_hex key content) (strip (c ∷ s)))
