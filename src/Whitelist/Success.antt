-- ===== src/Whitelist/Success.antt =====
-- When the calls of `Whitelist.save` succeed.
use usb_defense_system.Prelude.{
  ◌≡◌, refl, ap, ◌∙◌, true, false, Option, none, some, List, [], ◌∷◌, ◌++◌, Text, arith,
}
use usb_defense_system.Exec.{Result, ok, err, continue}
use usb_defense_system.Platform.{Platform}
use usb_defense_system.Files.{
  FileSystem, Call, required, best_effort, write, replace, chmod, toggle_immutable, is_immutable,
  call, run_calls, whitelist_path, whitelist_sig_path, whitelist_tmp, whitelist_sig_tmp,
}
use usb_defense_system.Integrity.{sign}
use usb_defense_system.Whitelist.{Store, save, save_calls, document}

module _ (P : Platform) where
  run_calls-append :
      (cs ds : List Call) (fs : FileSystem)
      → (run_calls P cs fs).0 ≡ ok tt
      → run_calls P (cs ++ ds) fs ≡ run_calls P ds (run_calls P cs fs).1
  unfolding run_calls
  run_calls-append [] ds fs h = refl
  run_calls-append (c ∷ cs) ds fs h = after (call P c fs) h (λ f k. run_calls-append cs ds f k)
    where
      after :
          (r : Result (Unit {0}) × FileSystem)
          → (continue r.0 (λ _. run_calls P cs) r.1).0 ≡ ok tt
          → ((f : FileSystem)
              → (run_calls P cs f).0 ≡ ok tt
              → run_calls P (cs ++ ds) f ≡ run_calls P ds (run_calls P cs f).1)
          → continue r.0 (λ _. run_calls P (cs ++ ds)) r.1
            ≡ run_calls P ds (continue r.0 (λ _. run_calls P cs) r.1).1
      after (ok u, f) k rec = rec f k
      after (err x, f) k rec = absurd (ground arith)

  -- The whitelist file and both temporary files can be written.
  abbrev Writable : FileSystem → Type 0
  Writable fs =
      (is_immutable (fs whitelist_path) ≡ false)
      × (is_immutable (fs whitelist_tmp) ≡ false)
      × (is_immutable (fs whitelist_sig_tmp) ≡ false)

  abbrev clear_whitelist : List Call
  clear_whitelist = required (toggle_immutable whitelist_path false) ∷ []

  abbrev clear_sig : List Call
  clear_sig = required (toggle_immutable whitelist_sig_path false) ∷ []

  abbrev place_whitelist : Text → List Call
  place_whitelist payload =
      required (write whitelist_tmp payload)
      ∷ required (replace whitelist_tmp whitelist_path)
      ∷ best_effort (chmod whitelist_path 0o600)
      ∷ []

  abbrev place_sig : Text → List Call
  place_sig sig =
      required (write whitelist_sig_tmp sig)
      ∷ required (replace whitelist_sig_tmp whitelist_sig_path)
      ∷ best_effort (chmod whitelist_sig_path 0o600)
      ∷ []

  clear_whitelist-ok :
      (fs : FileSystem)
      → P.chattr_ok ≡ true
      → is_immutable (fs whitelist_tmp) ≡ false
      → is_immutable (fs whitelist_sig_tmp) ≡ false
      → let (r, fs') = run_calls P clear_whitelist fs in (r ≡ ok tt) × Writable fs'
  unfolding run_calls
  clear_whitelist-ok fs c i j = ground (arith, c, i, j)

  clear_sig-ok :
      (fs : FileSystem)
      → P.chattr_ok ≡ true
      → Writable fs
      → let (r, fs') = run_calls P clear_sig fs in
        (r ≡ ok tt) × Writable fs' × (is_immutable (fs' whitelist_sig_path) ≡ false)
  unfolding run_calls
  clear_sig-ok fs c (w, i, j) = ground (arith, c, w, i, j)

  place_whitelist-ok :
      (payload : Text) (fs : FileSystem)
      → Writable fs
      → let (r, fs') = run_calls P (place_whitelist payload) fs in
        (r ≡ ok tt)
        × Writable fs'
        × (is_immutable (fs' whitelist_sig_path) ≡ is_immutable (fs whitelist_sig_path))
  unfolding run_calls
  place_whitelist-ok payload fs (w, i, j) = ground (arith, w, i, j)

  place_sig-ok :
      (sig : Text) (fs : FileSystem)
      → Writable fs
      → is_immutable (fs whitelist_sig_path) ≡ false
      → (run_calls P (place_sig sig) fs).0 ≡ ok tt
  unfolding run_calls
  place_sig-ok sig fs (w, i, j) s = ground (arith, w, i, j, s)

  both-ok :
      (cs ds : List Call) (fs : FileSystem)
      → (run_calls P cs fs).0 ≡ ok tt
      → (run_calls P ds (run_calls P cs fs).1).0 ≡ ok tt
      → (run_calls P (cs ++ ds) fs).0 ≡ ok tt
  both-ok cs ds fs h k =
      ap (λ (r : Result (Unit {0}) × FileSystem). r.0) (run_calls-append cs ds fs h) ∙ k

  set_whitelist-ok :
      (fs : FileSystem)
      → (run_calls P (required (toggle_immutable whitelist_path true) ∷ []) fs).0 ≡ ok tt
  unfolding run_calls
  set_whitelist-ok fs = refl

  set_both-ok :
      (fs : FileSystem)
      → (run_calls P
          (required (toggle_immutable whitelist_path true)
            ∷ required (toggle_immutable whitelist_sig_path true)
            ∷ [])
          fs).0
        ≡ ok tt
  unfolding run_calls
  set_both-ok fs = refl

  save_calls-ok :
      (master_key : Option Text) (payload : Text) (fs : FileSystem)
      → P.chattr_ok ≡ true
      → is_immutable (fs whitelist_tmp) ≡ false
      → is_immutable (fs whitelist_sig_tmp) ≡ false
      → (run_calls P (save_calls P master_key payload) fs).0 ≡ ok tt
  unfolding save_calls
  save_calls-ok none payload fs c i j =
      let (cleared, w) = clear_whitelist-ok fs c i j in
      let fs₁ = (run_calls P clear_whitelist fs).1 in
      let (placed, _, _) = place_whitelist-ok payload fs₁ w in
      both-ok clear_whitelist _ fs cleared
        (both-ok (place_whitelist payload) _ fs₁ placed (set_whitelist-ok _))
  save_calls-ok (some key) payload fs c i j =
      let (cleared, w) = clear_whitelist-ok fs c i j in
      let fs₁ = (run_calls P clear_whitelist fs).1 in
      let (cleared', w', s) = clear_sig-ok fs₁ c w in
      let fs₂ = (run_calls P clear_sig fs₁).1 in
      let (placed, w'', same) = place_whitelist-ok payload fs₂ w' in
      let fs₃ = (run_calls P (place_whitelist payload) fs₂).1 in
      both-ok clear_whitelist _ fs cleared (
        both-ok clear_sig _ fs₁ cleared' (
          both-ok (place_whitelist payload) _ fs₂ placed (
            both-ok (place_sig (sign P payload key)) _ fs₃
              (place_sig-ok (sign P payload key) fs₃ w'' (same ∙ s)) (set_both-ok _))))

  -- Where `chattr` works and no temporary file is immutable, a `save` returns.
  pub save-ok :
      (s : Store)
      → P.chattr_ok ≡ true
      → is_immutable (s.files whitelist_tmp) ≡ false
      → is_immutable (s.files whitelist_sig_tmp) ≡ false
      → (save P s).0 ≡ ok tt
  unfolding save
  save-ok s c i j =
      ground (arith, save_calls-ok s.master_key (P.dumps (document s.entries)) s.files c i j)
