-- ===== src/Files/Content.antt =====
-- What each call does to the contents of the files, whatever it does to their attributes.
use usb_defense_system.Prelude.{
  ℕ, ◌≢◌, ◌≡◌, refl, ap, sym, ◌∙◌, Bool, true, false, Option, none, some, arith, ◌==◌,
  if◌then◌else◌, Text, Bool-cases, inl, inr,
}
use usb_defense_system.Exec.{Result, ok}
use usb_defense_system.Platform.{Platform}
use usb_defense_system.Files.{
  FilePath, FileSystem, File, config_path, whitelist_path, whitelist_sig_path, admin_hash_path,
  recovery_seed_hash_path, master_key_path, event_log_path, ipc_socket, lockdown_flag, pid_file,
  persistent_lockdown_flag, whitelist_tmp, whitelist_sig_tmp, admin_hash_tmp,
  recovery_seed_hash_tmp, master_key_tmp, logind_runtime_dropin, tty_active_path, index, path_eq,
  set_file, write, replace, chmod, toggle_immutable, required, best_effort, call, Returns,
}

of_index : ℕ → FilePath
of_index n =
    if n == 0
    then config_path
    else if n == 1
    then whitelist_path
    else if n == 2
    then whitelist_sig_path
    else if n == 3
    then admin_hash_path
    else if n == 4
    then recovery_seed_hash_path
    else if n == 5
    then master_key_path
    else if n == 6
    then event_log_path
    else if n == 7
    then ipc_socket
    else if n == 8
    then lockdown_flag
    else if n == 9
    then pid_file
    else if n == 10
    then persistent_lockdown_flag
    else if n == 11
    then whitelist_tmp
    else if n == 12
    then whitelist_sig_tmp
    else if n == 13
    then admin_hash_tmp
    else if n == 14
    then recovery_seed_hash_tmp
    else if n == 15
    then master_key_tmp
    else if n == 16
    then logind_runtime_dropin
    else tty_active_path

of_index-index : (p : FilePath) → of_index (index p) ≡ p
unfolding of_index
of_index-index config_path = refl
of_index-index _ = refl

path_eq_sound : (p q : FilePath) → path_eq p q ≡ true → p ≡ q
path_eq_sound p q h =
    let same : index p ≡ index q = ground arith in
    sym (of_index-index p) ∙ ap of_index same ∙ of_index-index q

abbrev pub content_of : Option File → Option Text
content_of none = none
content_of (some f) = some f.content

abbrev pub content_at : FileSystem → FilePath → Option Text
content_at fs p = content_of (fs p)

push :
    (a b : Bool) (o p : Option File)
    → content_of (if a then none else if b then o else p)
      ≡ (if a then none else if b then content_of o else content_of p)
push true b o p = refl
push false true o p = refl
push false false o p = refl

-- A file that is rewritten with the same content leaves every content as it was.
module _ (P : Platform) where
  toggle-content :
      (p q : FilePath) (flag : Bool) (fs : FileSystem)
      → content_at (call P (required (toggle_immutable p flag)) fs).1 q ≡ content_at fs q
  toggle-content p q flag fs = elim (Bool-cases (path_eq q p)) [
    | inl e ↦ rw (path_eq_sound q p e) (ground arith)
    | inr e ↦ ground (arith, e)
  ]

  chmod-content :
      (p q : FilePath) (mode : ℕ) (fs : FileSystem)
      → content_at (call P (best_effort (chmod p mode)) fs).1 q ≡ content_at fs q
  chmod-content p q mode fs = elim (Bool-cases (path_eq q p)) [
    | inl e ↦ rw (path_eq_sound q p e) (ground arith)
    | inr e ↦ ground (arith, e)
  ]

  pub content-toggle :
      (p q : FilePath) (flag : Bool) {fs fs' : FileSystem}
      → Returns P (required (toggle_immutable p flag)) fs fs'
      → content_at fs' q ≡ content_at fs q
  content-toggle p q flag {fs} h =
      sym (ap (λ (r : Result (Unit {0}) × FileSystem). content_at r.1 q) h.made)
      ∙ toggle-content p q flag fs

  pub content-chmod :
      (p q : FilePath) (mode : ℕ) {fs fs' : FileSystem}
      → Returns P (best_effort (chmod p mode)) fs fs'
      → content_at fs' q ≡ content_at fs q
  content-chmod p q mode {fs} h =
      sym (ap (λ (r : Result (Unit {0}) × FileSystem). content_at r.1 q) h.made)
      ∙ chmod-content p q mode fs

  pub content-chmod_required :
      (p q : FilePath) (mode : ℕ) {fs fs' : FileSystem}
      → Returns P (required (chmod p mode)) fs fs'
      → content_at fs' q ≡ content_at fs q
  content-chmod_required p q mode {fs} h =
      content-chmod p q mode {fs = fs}
        (record { made = ap (λ (r : Result (Unit {0}) × FileSystem). (ok tt, r.1)) h.made })

  pub content-write :
      (p q : FilePath) (t : Text) {fs fs' : FileSystem}
      → Returns P (required (write p t)) fs fs'
      → content_at fs' q ≡ (if path_eq q p then some t else content_at fs q)
  content-write p q t h =
      ground (arith, ap (λ (r : Result (Unit {0}) × FileSystem). content_at r.1 q) h.made)

  replace-state :
      (src dst : FilePath) (f : File) (fs : FileSystem) {fs' : FileSystem}
      → fs src ≡ some f
      → Returns P (required (replace src dst)) fs fs'
      → set_file src none (set_file dst (some f) fs) ≡ fs'
  replace-state src dst f fs e h = ground (arith, e, h.made)

  replace-found :
      (src dst : FilePath) (fs : FileSystem) {fs' : FileSystem}
      → Returns P (required (replace src dst)) fs fs'
      → fs src ≢ none
  replace-found src dst fs h = λ e. ground (arith, e, h.made)

  pub content-replace :
      (src dst q : FilePath) {fs fs' : FileSystem}
      → Returns P (required (replace src dst)) fs fs'
      → content_at fs' q ≡ (
          if path_eq q src
          then none
          else if path_eq q dst
          then content_at fs src
          else content_at fs q)
  content-replace src dst q {fs} {fs'} h = found (fs src) (replace-found src dst fs h) refl
    where
      found :
          (o : Option File)
          → o ≢ none
          → fs src ≡ o
          → content_at fs' q ≡ (
              if path_eq q src
              then none
              else if path_eq q dst
              then content_at fs src
              else content_at fs q)
      found none n e = absurd (n refl)
      found (some f) n e =
          rw (← replace-state src dst f fs e h)
            (rw e (push (path_eq q src) (path_eq q dst) (some f) (fs q)))
