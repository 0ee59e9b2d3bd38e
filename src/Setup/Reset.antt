-- ===== src/Setup/Reset.antt =====
-- What a reset leaves of the whitelist.
use usb_defense_system.Prelude.{
  ◌≡◌, refl, sym, ap, ◌∙◌, true, Option, none, some, List, [], Text, arith,
}
use usb_defense_system.Exec.{Result, Exec, ok, err, continue, ◌>>=◌, ◌>>◌}
use usb_defense_system.Platform.{Platform}
use usb_defense_system.Files.{
  FileSystem, whitelist_path, whitelist_sig_path, whitelist_tmp, whitelist_sig_tmp,
}
use usb_defense_system.Files.Content.{
  content_of, content_at, content-write, content-replace, content-chmod_required,
}
use usb_defense_system.Files.Runs.{Ensures, run_calls-Ensures}
use usb_defense_system.Integrity.{ensure_master_key, create_key, checked_key, sign}
use usb_defense_system.Auth.{set_admin_password}
use usb_defense_system.Recovery.{generate_new}
use usb_defense_system.Whitelist.{document}
use usb_defense_system.Setup.{
  Randomness, prompt_password, empty_payload, init_calls, init_signed_whitelist, forget_secrets,
  ceremony, typed, cmd_setup,
}

-- Where a chain of two steps returns, both do.
pub record Steps {S A B : Type 0} (m : Exec S A) (f : A → Exec S B) (s : S) (b : B) (s' : S)
    : Type 0 where
  pub value : A
  pub between : S
  pub first : m s ≡ (ok value, between)
  pub second : f value between ≡ (ok b, s')

pub steps :
    {S A B : Type 0} (m : Exec S A) (f : A → Exec S B) (s : S) {b : B} {s' : S}
    → (m >>= f) s ≡ (ok b, s')
    → Steps m f s b s'
steps {S} {A} {B} m f s {b} {s'} h = from (m s) refl h
  where
    from : (r : Result A × S) → m s ≡ r → continue r.0 f r.1 ≡ (ok b, s') → Steps m f s b s'
    from (ok a, s₁) e k = record { value = a; between = s₁; first = e; second = k }
    from (err x, s₁) e k = absurd (ground arith)

module _ (P : Platform) where
  forget_secrets-sig :
      (fs : FileSystem) {fs' : FileSystem}
      → forget_secrets P fs ≡ (ok tt, fs')
      → fs' whitelist_sig_path ≡ none
  unfolding forget_secrets
  forget_secrets-sig fs h =
      ground (arith, ap (λ (r : Result (Unit {0}) × FileSystem). r.1 whitelist_sig_path) h)

  set_admin_password-sig :
      (salt pw : Text) (fs : FileSystem)
      → (set_admin_password P salt pw fs).1 whitelist_sig_path ≡ fs whitelist_sig_path
  unfolding set_admin_password
  set_admin_password-sig salt pw fs = ground arith

  ensure_master_key-sig :
      (token : Text) (fs : FileSystem)
      → (ensure_master_key P token fs).1 whitelist_sig_path ≡ fs whitelist_sig_path
  unfolding ensure_master_key create_key checked_key
  ensure_master_key-sig token fs = ground arith

  generate_new-whitelist :
      (raw salt : Text) (fs : FileSystem)
      → (generate_new P raw salt fs).1 whitelist_path ≡ fs whitelist_path
  unfolding generate_new
  generate_new-whitelist raw salt fs = ground arith

  abbrev IsEmptied : FileSystem → Type 0
  IsEmptied fs = content_at fs whitelist_path ≡ some (empty_payload P)

  init_calls-Ensures : (key : Text) (fs : FileSystem) → Ensures P IsEmptied (init_calls P key) fs
  unfolding init_calls
  init_calls-Ensures key fs = λ a ha b hb c hc d hd e he f hf.
      content-chmod_required P whitelist_sig_path whitelist_path 0o600 hf
      ∙ content-replace P whitelist_sig_tmp whitelist_sig_path whitelist_path he
      ∙ content-write P whitelist_sig_tmp whitelist_path (sign P (empty_payload P) key) hd
      ∙ content-chmod_required P whitelist_path whitelist_path 0o600 hc
      ∙ content-replace P whitelist_tmp whitelist_path whitelist_path hb
      ∙ content-write P whitelist_tmp whitelist_tmp (empty_payload P) ha

  init_signed_whitelist-IsEmptied :
      (key : Text) (fs : FileSystem) {fs' : FileSystem}
      → fs whitelist_sig_path ≡ none
      → init_signed_whitelist P key fs ≡ (ok tt, fs')
      → IsEmptied fs'
  unfolding init_signed_whitelist
  init_signed_whitelist-IsEmptied key fs {fs'} none_there h =
      run_calls-Ensures P IsEmptied (init_calls P key) fs fs' (init_calls-Ensures key fs)
        (ground (arith, none_there, h))

  -- The steps behind the password.
  abbrev pub behind : Randomness → Text → Exec FileSystem Text
  behind r pw = do
    set_admin_password P r.salt pw
    key ← ensure_master_key P r.token
    init_signed_whitelist P key
    generate_new P r.raw r.code_salt

  behind-IsEmptied :
      (r : Randomness) (pw : Text) (fs : FileSystem) {code : Text} {fs' : FileSystem}
      → fs whitelist_sig_path ≡ none
      → behind r pw fs ≡ (ok code, fs')
      → IsEmptied fs'
  behind-IsEmptied r pw fs {code} {fs'} none_there h =
      let a = steps (set_admin_password P r.salt pw) _ fs h in
      let b = steps (ensure_master_key P r.token) _ a.between a.second in
      let c = steps (init_signed_whitelist P b.value) _ b.between b.second in
      let still : b.between whitelist_sig_path ≡ none =
        ap (λ (x : Result Text × FileSystem). x.1 whitelist_sig_path) (sym b.first)
        ∙ ensure_master_key-sig r.token a.between
        ∙ ap (λ (x : Result (Unit {0}) × FileSystem). x.1 whitelist_sig_path) (sym a.first)
        ∙ set_admin_password-sig r.salt pw fs
        ∙ none_there in
      ap (λ (x : Result Text × FileSystem). content_of (x.1 whitelist_path)) (sym c.second)
      ∙ ap content_of (generate_new-whitelist r.raw r.code_salt c.between)
      ∙ init_signed_whitelist-IsEmptied b.value b.between still c.first

  ceremony-IsEmptied :
      (r : Randomness) (answers : List (Text × Text)) (fs : FileSystem) {code : Text}
      {fs' : FileSystem}
      → fs whitelist_sig_path ≡ none
      → ceremony P r answers fs ≡ (ok code, fs')
      → IsEmptied fs'
  unfolding ceremony
  ceremony-IsEmptied r answers fs {code} {fs'} none_there h = typed_in (prompt_password answers) h
    where
      typed_in : (o : Option Text) → (typed P o >>= behind r) fs ≡ (ok code, fs') → IsEmptied fs'
      typed_in (some pw) k = behind-IsEmptied r pw fs none_there k
      typed_in none k = absurd (ground arith)

  -- A setup with `--reset` that runs to its end leaves a whitelist file that holds the document with
  -- no devices, whatever it held before.
  pub cmd_setup_reset :
      (r : Randomness) (answers : List (Text × Text)) (fs fs' : FileSystem) (code : Text)
      → cmd_setup P true true r answers fs ≡ (ok code, fs')
      → content_at fs' whitelist_path ≡ some (P.dumps (document []))
  unfolding cmd_setup
  cmd_setup_reset r answers fs fs' code h =
      let run : (forget_secrets P >> ceremony P r answers) fs ≡ (ok code, fs') =
        ground (arith, h) in
      let a = steps (forget_secrets P) _ fs run in
      ceremony-IsEmptied r answers a.between (forget_secrets-sig fs a.first) a.second
