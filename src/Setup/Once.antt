-- ===== src/Setup/Once.antt =====
-- When the setup refuses to run.
use usb_defense_system.Prelude.{
  ◌≡◌, ◌≢◌, refl, sym, ap, ◌∙◌, Bool, true, false, not, ◌&&◌, Option, none, some, List, [], ◌∷◌,
  Text, arith, ◌⊎◌, inl, inr, is_some,
}
use usb_defense_system.Exec.{Result, Exec, ok, err, system_exit, when, raise, gets, ◌>>=◌, ◌>>◌}
use usb_defense_system.Platform.{Platform}
use usb_defense_system.Files.{
  FileSystem, File, admin_hash_path, master_key_path, recovery_seed_hash_path, exists, has_bytes,
}
use usb_defense_system.Files.Content.{content_of}
use usb_defense_system.Files.Frame.{run_calls-spared}
use usb_defense_system.Integrity.{ensure_master_key, create_key, checked_key}
use usb_defense_system.Auth.{set_admin_password, is_admin_password_set}
use usb_defense_system.Recovery.{generate_new, is_set, normalize, display}
use usb_defense_system.Setup.{
  Randomness, prompt_password, init_calls, init_signed_whitelist, forget_secrets, has_secrets,
  ceremony, typed, cmd_setup,
}
use usb_defense_system.Setup.Reset.{steps, behind}

content-has_bytes :
    (o : Option File) (t : Text) → content_of o ≡ some t → t ≢ [] → has_bytes o ≡ true
content-has_bytes none t e n = absurd (ground arith)
content-has_bytes (some f) t e n = by_content f.content (ground (arith, e)) n
  where
    by_content : (u : Text) → u ≡ t → t ≢ [] → elim u [ [] ↦ false | _ ∷ _ ↦ true ] ≡ true
    by_content [] k m = absurd (m (sym k))
    by_content (c ∷ u) k m = refl

module _ (P : Platform) where
  set_admin_password-hash :
      (salt pw : Text) (fs : FileSystem) {fs' : FileSystem}
      → P.hash pw salt ≢ []
      → set_admin_password P salt pw fs ≡ (ok tt, fs')
      → has_bytes (fs' admin_hash_path) ≡ true
  unfolding set_admin_password
  set_admin_password-hash salt pw fs {fs'} n h =
      let file = ap (λ (r : Result (Unit {0}) × FileSystem). content_of (r.1 admin_hash_path)) h in
      content-has_bytes (fs' admin_hash_path) (P.hash pw salt) (ground (arith, h, file)) n

  ensure_master_key-key :
      (token : Text) (fs : FileSystem) {key : Text} {fs' : FileSystem}
      → ensure_master_key P token fs ≡ (ok key, fs')
      → (exists fs' master_key_path ≡ true) × (fs' admin_hash_path ≡ fs admin_hash_path)
  unfolding ensure_master_key create_key checked_key
  ensure_master_key-key token fs h =
      let key = ap (λ (r : Result Text × FileSystem). r.1 master_key_path) h in
      let hash = ap (λ (r : Result Text × FileSystem). r.1 admin_hash_path) h in
      ground (arith, h, key, hash)

  init_signed_whitelist-spared :
      (key : Text) (fs : FileSystem)
      → ((init_signed_whitelist P key fs).1 admin_hash_path ≡ fs admin_hash_path)
        × ((init_signed_whitelist P key fs).1 master_key_path ≡ fs master_key_path)
  unfolding init_signed_whitelist init_calls
  init_signed_whitelist-spared key fs = ground (
    arith,
    run_calls-spared P admin_hash_path (init_calls P key) fs
        (refl, (refl, (refl, (refl, (refl, (refl, tt)))))),
    run_calls-spared P master_key_path (init_calls P key) fs
        (refl, (refl, (refl, (refl, (refl, (refl, tt)))))),
  )

  generate_new-code :
      (raw salt : Text) (fs : FileSystem) {code : Text} {fs' : FileSystem}
      → ((s : Text) → P.hash s salt ≢ [])
      → generate_new P raw salt fs ≡ (ok code, fs')
      → (has_bytes (fs' recovery_seed_hash_path) ≡ true)
        × (fs' admin_hash_path ≡ fs admin_hash_path)
        × (fs' master_key_path ≡ fs master_key_path)
  unfolding generate_new
  generate_new-code raw salt fs {code} {fs'} n h =
      let file =
        ap (λ (r : Result Text × FileSystem). content_of (r.1 recovery_seed_hash_path)) h in
      let hash = ap (λ (r : Result Text × FileSystem). r.1 admin_hash_path) h in
      let key = ap (λ (r : Result Text × FileSystem). r.1 master_key_path) h in
      (
        content-has_bytes (fs' recovery_seed_hash_path) (P.hash (normalize (display raw)) salt)
            (ground (arith, h, file)) (n (normalize (display raw))),
        ground (arith, h, hash),
        ground (arith, h, key),
      )

  -- The three secrets are there.
  abbrev AreSet : FileSystem → Type 0
  AreSet fs =
      (has_bytes (fs admin_hash_path) ≡ true)
      × (exists fs master_key_path ≡ true)
      × (has_bytes (fs recovery_seed_hash_path) ≡ true)

  behind-AreSet :
      (r : Randomness) (pw : Text) (fs : FileSystem) {code : Text} {fs' : FileSystem}
      → ((s : Text) → P.hash s r.salt ≢ [])
      → ((s : Text) → P.hash s r.code_salt ≢ [])
      → behind P r pw fs ≡ (ok code, fs')
      → AreSet fs'
  behind-AreSet r pw fs {code} {fs'} n m h =
      let a = steps (set_admin_password P r.salt pw) _ fs h in
      let b = steps (ensure_master_key P r.token) _ a.between a.second in
      let c = steps (init_signed_whitelist P b.value) _ b.between b.second in
      let hash = set_admin_password-hash r.salt pw fs (n pw) a.first in
      let (key, hash₁) = ensure_master_key-key r.token a.between b.first in
      let (hash₂, key₁) = init_signed_whitelist-spared b.value b.between in
      let left = ap (λ (x : Result (Unit {0}) × FileSystem). x.1 admin_hash_path) c.first in
      let left₁ = ap (λ (x : Result (Unit {0}) × FileSystem). x.1 master_key_path) c.first in
      let (code_set, hash₃, key₂) = generate_new-code r.raw r.code_salt c.between m c.second in
      (
        ap has_bytes (hash₃ ∙ sym left ∙ hash₂ ∙ hash₁) ∙ hash,
        ap is_some (key₂ ∙ sym left₁ ∙ key₁) ∙ key,
        code_set,
      )

  ceremony-AreSet :
      (r : Randomness) (answers : List (Text × Text)) (fs : FileSystem) {code : Text}
      {fs' : FileSystem}
      → ((s : Text) → P.hash s r.salt ≢ [])
      → ((s : Text) → P.hash s r.code_salt ≢ [])
      → ceremony P r answers fs ≡ (ok code, fs')
      → AreSet fs'
  unfolding ceremony
  ceremony-AreSet r answers fs {code} {fs'} n m h = typed_in (prompt_password answers) h
    where
      typed_in : (o : Option Text) → (typed P o >>= behind P r) fs ≡ (ok code, fs') → AreSet fs'
      typed_in (some pw) k = behind-AreSet r pw fs n m k
      typed_in none k = absurd (ground arith)

  -- `cmd_setup` past its two checks
  abbrev rest : Bool → Randomness → List (Text × Text) → Exec FileSystem Text
  rest reset r answers = when reset (forget_secrets P) >> ceremony P r answers

  abbrev checked : Bool → Randomness → List (Text × Text) → Bool → Exec FileSystem Text
  checked reset r answers present =
      when (present && not reset) (raise system_exit) >> rest reset r answers

  cmd_setup-AreSet :
      (root reset : Bool) (r : Randomness) (answers : List (Text × Text)) (fs : FileSystem)
      {code : Text} {fs' : FileSystem}
      → ((s : Text) → P.hash s r.salt ≢ [])
      → ((s : Text) → P.hash s r.code_salt ≢ [])
      → cmd_setup P root reset r answers fs ≡ (ok code, fs')
      → AreSet fs'
  unfolding cmd_setup
  cmd_setup-AreSet root reset r answers fs n m h =
      let a =
        steps (when (not root) (raise system_exit))
          (λ _. gets has_secrets >>= checked reset r answers) fs h in
      let b = steps (gets has_secrets) (checked reset r answers) a.between a.second in
      let c =
        steps (when (b.value && not reset) (raise system_exit)) (λ _. rest reset r answers)
          b.between b.second in
      let d =
        steps (when reset (forget_secrets P)) (λ _. ceremony P r answers) c.between c.second in
      ceremony-AreSet r answers d.between n m d.second

  -- One of the files of the three secrets is as it was.
  abbrev pub IsLeft : FileSystem → FileSystem → Type 0
  IsLeft fs later =
      (later admin_hash_path ≡ fs admin_hash_path)
      ⊎ (later master_key_path ≡ fs master_key_path)
      ⊎ (later recovery_seed_hash_path ≡ fs recovery_seed_hash_path)

  has_secrets-left :
      (fs later : FileSystem) → AreSet fs → IsLeft fs later → has_secrets later ≡ true
  unfolding is_admin_password_set is_set
  has_secrets-left fs later (a, k, c) (inl e) = rw e (ground arith)
  has_secrets-left fs later (a, k, c) (inr (inl e)) = rw e (ground arith)
  has_secrets-left fs later (a, k, c) (inr (inr e)) = rw e (ground arith)

  -- After a setup that ran to its end, as long as one of the files of the admin password, the master key
  -- and the recovery code is as it was left, every setup without `--reset` exits and changes nothing,
  -- with root and without. (argon2's encodings are not empty.)
  pub cmd_setup_once :
      (root reset again : Bool) (r r' : Randomness) (answers answers' : List (Text × Text))
      (fs fs' later : FileSystem) (code : Text)
      → ((s : Text) → P.hash s r.salt ≢ [])
      → ((s : Text) → P.hash s r.code_salt ≢ [])
      → cmd_setup P root reset r answers fs ≡ (ok code, fs')
      → IsLeft fs' later
      → cmd_setup P again false r' answers' later ≡ (err system_exit, later)
  unfolding cmd_setup
  cmd_setup_once root reset again r r' answers answers' fs fs' later code n m h left =
      let there =
        has_secrets-left fs' later (cmd_setup-AreSet root reset r answers fs n m h) left in
      ground (arith, there)
