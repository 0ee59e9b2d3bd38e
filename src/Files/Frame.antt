-- ===== src/Files/Frame.antt =====
-- A straight line of calls leaves alone every file that none of its calls names.
use usb_defense_system.Prelude.{
  ◌≡◌, refl, ◌∙◌, Bool, true, false, not, ◌||◌, List, [], ◌∷◌, arith, AllTrue, Option, none, some,
  if◌then◌else◌,
}
use usb_defense_system.Exec.{Result, ok, err, os_error, continue}
use usb_defense_system.Platform.{Platform}
use usb_defense_system.Files.{
  FilePath, FileSystem, FsOp, Call, path_eq, write, replace, chmod, unlink, toggle_immutable,
  required, best_effort, call, run_calls, keep_state, moved, set_file, is_immutable, File,
}

abbrev touches : FsOp → FilePath → Bool
touches (write p t) q = path_eq q p
touches (replace src dst) q = path_eq q src || path_eq q dst
touches (chmod p m) q = path_eq q p
touches (unlink p) q = path_eq q p
touches (toggle_immutable p flag) q = path_eq q p

abbrev pub spares : FilePath → Call → Bool
spares q (required o) = not (touches o q)
spares q (best_effort o) = not (touches o q)

module _ (P : Platform) (q : FilePath) where
  moved-spared :
      (src dst : FilePath) (o : Option File) (fs : FileSystem)
      → path_eq q src ≡ false
      → path_eq q dst ≡ false
      → (keep_state P fs (moved P src dst o fs)).1 q ≡ fs q
  moved-spared src dst none fs a b = refl
  moved-spared src dst (some f) fs a b = by_test (f.immutable || is_immutable (fs dst))
    where
      by_test :
          (c : Bool)
          → (keep_state P fs
                (if c then err os_error else ok (set_file src none (set_file dst (some f) fs)))).1
              q
            ≡ fs q
      by_test true = refl
      by_test false = rw a (rw b)

  neither : (a b : Bool) → not (a || b) ≡ true → (a ≡ false) × (b ≡ false)
  neither a b h = ground arith

  pub call-spared : (c : Call) (fs : FileSystem) → spares q c ≡ true → (call P c fs).1 q ≡ fs q
  call-spared (required (write p t)) fs h = ground arith
  call-spared (required (replace src dst)) fs h =
      let (a, b) = neither (path_eq q src) (path_eq q dst) h in moved-spared src dst (fs src) fs a b
  call-spared (required (chmod p m)) fs h = ground arith
  call-spared (required (unlink p)) fs h = ground arith
  call-spared (required (toggle_immutable p flag)) fs h = ground arith
  call-spared (best_effort (write p t)) fs h = ground arith
  call-spared (best_effort (replace src dst)) fs h =
      let (a, b) = neither (path_eq q src) (path_eq q dst) h in moved-spared src dst (fs src) fs a b
  call-spared (best_effort (chmod p m)) fs h = ground arith
  call-spared (best_effort (unlink p)) fs h = ground arith
  call-spared (best_effort (toggle_immutable p flag)) fs h = ground arith

  pub run_calls-spared :
      (cs : List Call) (fs : FileSystem) → AllTrue (spares q) cs → (run_calls P cs fs).1 q ≡ fs q
  unfolding run_calls
  run_calls-spared [] fs h = refl
  run_calls-spared (c ∷ cs) fs (h, hs) =
      after (call P c fs) (call-spared c fs h) (λ f. run_calls-spared cs f hs)
    where
      after :
          (r : Result (Unit {0}) × FileSystem)
          → r.1 q ≡ fs q
          → ((f : FileSystem) → (run_calls P cs f).1 q ≡ f q)
          → (continue r.0 (λ _. run_calls P cs) r.1).1 q ≡ fs q
      after (ok u, f) e rec = rec f ∙ e
      after (err x, f) e rec = e
