-- ===== src/Recovery/Once.antt =====
-- The life of a recovery code in recovery.py, from `generate_new` to `verify_and_consume`.
use usb_defense_system.Prelude.{
  ◌≡◌, refl, ap, ◌∙◌, Bool, true, false, [], ◌∷◌, Text, strip, arith, ◌≢◌, none, some, length,
  AllTrue, lower,
}
use usb_defense_system.Exec.{Result, ok}
use usb_defense_system.Platform.{Platform, matches}
use usb_defense_system.Files.{
  File, recovery_seed_hash_tmp, FileSystem, recovery_seed_hash_path, is_immutable, set_file,
}
use usb_defense_system.Recovery.{
  normalize, display, code_chars, generate_new, verify_and_consume, is_set,
}
use usb_defense_system.Recovery.Code.{is_crockford, normalize-display_crockford}

module _ (P : Platform) where
  abbrev code_file : Text → File
  code_file encoded = record { content = encoded; mode = 0o600; immutable = false }

  generate_new-file :
      (raw salt : Text) (fs : FileSystem) {shown : Text} {fs' : FileSystem}
      → P.chmod_ok ≡ true
      → generate_new P raw salt fs ≡ (ok shown, fs')
      → (fs' recovery_seed_hash_path ≡ some (code_file (P.hash (normalize (display raw)) salt)))
        × (shown ≡ display raw)
  unfolding generate_new
  generate_new-file raw salt fs {shown} {fs'} c h = (
    ground (arith, ap (λ (r : Result Text × FileSystem). r.1 recovery_seed_hash_path) h),
    ground (arith),
  )

  consume_stored :
      (encoded code : Text) (fs : FileSystem)
      → encoded ≢ []
      → strip encoded ≡ encoded
      → P.verify_hash encoded (normalize code) ≡ matches
      → fs recovery_seed_hash_path ≡ some (code_file encoded)
      → verify_and_consume P code fs ≡ (ok true, set_file recovery_seed_hash_path none fs)
  unfolding verify_and_consume
  consume_stored [] code fs n s v f = absurd (n refl)
  consume_stored (c ∷ encoded) code fs n s v f = rw f (ground (arith, f, s, v))

  generate_new-ok :
      (raw salt : Text) (fs : FileSystem)
      → is_immutable (fs recovery_seed_hash_tmp) ≡ false
      → is_immutable (fs recovery_seed_hash_path) ≡ false
      → (generate_new P raw salt fs).0 ≡ ok (display raw)
  unfolding generate_new
  generate_new-ok raw salt fs i j = ground (arith, i, j)

  -- For 16 Crockford characters, where `chmod` is permitted, neither the hash file nor its temporary
  -- file is immutable, and argon2's encoding of the characters is not empty, has no white space
  -- around it and matches them: `generate_new` returns the displayed code, and that text is then
  -- accepted, as is that text in lower case; either removes the hash file and changes no other file.
  pub consume-generate_new :
      (raw salt : Text) (fs : FileSystem)
      → is_immutable (fs recovery_seed_hash_tmp) ≡ false
      → is_immutable (fs recovery_seed_hash_path) ≡ false
      → P.chmod_ok ≡ true
      → length raw ≡ code_chars
      → AllTrue is_crockford raw
      → P.hash raw salt ≢ []
      → strip (P.hash raw salt) ≡ P.hash raw salt
      → P.verify_hash (P.hash raw salt) raw ≡ matches
      → let (r, fs') = generate_new P raw salt fs in
        (r ≡ ok (display raw))
        × (verify_and_consume P (display raw) fs'
            ≡ (ok true, set_file recovery_seed_hash_path none fs'))
        × (verify_and_consume P (lower (display raw)) fs'
            ≡ (ok true, set_file recovery_seed_hash_path none fs'))
  consume-generate_new raw salt fs i j c l a n s v =
      let fs' = (generate_new P raw salt fs).1 in
      let done = generate_new-ok raw salt fs i j in
      let (plain, small, _) = normalize-display_crockford raw l a in
      let (file, _) = generate_new-file raw salt fs c (ap (λ (r : Result Text). (r, fs')) done) in
      let stored : fs' recovery_seed_hash_path ≡ some (code_file (P.hash raw salt)) =
        file ∙ ap (λ (t : Text). some (code_file (P.hash t salt))) plain in
      let consume = λ (code : Text) (e : normalize code ≡ raw).
        consume_stored (P.hash raw salt) code fs' n s (ap (P.verify_hash (P.hash raw salt)) e ∙ v)
          stored in
      (done, consume (display raw) plain, consume (lower (display raw)) small)

  consumed :
      (code : Text) (fs : FileSystem) {fs' : FileSystem}
      → is_immutable (fs recovery_seed_hash_path) ≡ false
      → verify_and_consume P code fs ≡ (ok true, fs')
      → fs' recovery_seed_hash_path ≡ none
  unfolding verify_and_consume
  consumed code fs i h =
      ground (arith, ap (λ (r : Result Bool × FileSystem). r.1 recovery_seed_hash_path) h)

  -- Once a code has been accepted while the hash file was not immutable, the hash file is gone, and
  -- every later code is refused with no change, until a new code is generated.
  pub verify_and_consume_once :
      (code later : Text) (fs fs' : FileSystem)
      → is_immutable (fs recovery_seed_hash_path) ≡ false
      → verify_and_consume P code fs ≡ (ok true, fs')
      → (is_set fs' ≡ false) × (verify_and_consume P later fs' ≡ (ok false, fs'))
  unfolding verify_and_consume is_set
  verify_and_consume_once code later fs fs' i h =
      let gone = consumed code fs i h in (rw gone, rw gone)

  -- A code that is not accepted, or that raises, leaves every file as it was.
  pub verify_and_consume_refused :
      (code : Text) (fs : FileSystem)
      → (verify_and_consume P code fs).0 ≢ ok true
      → (verify_and_consume P code fs).1 ≡ fs
  unfolding verify_and_consume
  verify_and_consume_refused code fs h = ground arith
