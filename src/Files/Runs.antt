-- ===== src/Files/Runs.antt =====
-- Rules for a straight line of calls: what holds at its end, and what holds wherever it is cut.
use usb_defense_system.Prelude.{
  ℕ, zero, suc, ◌≡◌, refl, List, [], ◌∷◌, take, drop, arith, ap, sym, Bool, true, not, ◌&&◌, some,
  if◌then◌else◌, Text,
}
use mathlib.Core.Path.{subst}
use usb_defense_system.Exec.{Error, continue, Result, ok, err}
use usb_defense_system.Platform.{Platform}
use usb_defense_system.Files.{
  FilePath, path_eq, FileSystem, set_file, is_immutable, written, write, Returns, Call, required,
  best_effort, call, run_calls,
}
use usb_defense_system.Files.Content.{content_at}

-- A call that raises has changed nothing.
call_failed :
    (P : Platform) (c : Call) (fs : FileSystem) {x : Error} {fs' : FileSystem}
    → call P c fs ≡ (err x, fs')
    → fs' ≡ fs
call_failed P (required o) fs h = ground arith
call_failed P (best_effort o) fs h = ground arith

module _ (P : Platform) (Q : FileSystem → Type 0) where
  -- If every call succeeds, the state at the end satisfies `Q`.
  abbrev pub Ensures : List Call → FileSystem → Type 0
  Ensures [] fs = Q fs
  Ensures (c ∷ cs) fs = (fs' : FileSystem) → Returns P c fs fs' → Ensures cs fs'

  pub run_calls-Ensures :
      (cs : List Call) (fs fs' : FileSystem)
      → Ensures cs fs
      → run_calls P cs fs ≡ (ok tt, fs')
      → Q fs'
  unfolding run_calls
  run_calls-Ensures [] fs fs' e h = subst Q (ap (λ (r : Result (Unit {0}) × FileSystem). r.1) h) e
  run_calls-Ensures (c ∷ cs) fs fs' e h =
      after (call P c fs) refl h (λ fs₁ k. run_calls-Ensures cs fs₁ fs' k)
    where
      after :
          (r : Result (Unit {0}) × FileSystem)
          → call P c fs ≡ r
          → continue r.0 (λ _. run_calls P cs) r.1 ≡ (ok tt, fs')
          → ((fs₁ : FileSystem) → Ensures cs fs₁ → run_calls P cs fs₁ ≡ (ok tt, fs') → Q fs')
          → Q fs'
      after (ok u, fs₁) made rest rec = rec fs₁ (e fs₁ (record { made = made })) rest
      after (err x, fs₁) made rest rec = absurd (ground arith)

  -- The state satisfies `Q` before every call and at the end, as long as the calls succeed.
  abbrev pub Stays : List Call → FileSystem → Type 0
  Stays [] fs = Q fs
  Stays (c ∷ cs) fs = Q fs × ((fs' : FileSystem) → Returns P c fs fs' → Stays cs fs')

  -- So it does where the calls are cut off after the first `n`, by a crash or an error.
  pub run_calls-Stays :
      (cs : List Call) (fs : FileSystem) (n : ℕ) → Stays cs fs → Q (run_calls P (take n cs) fs).1
  unfolding run_calls
  run_calls-Stays [] fs zero s = s
  run_calls-Stays [] fs (suc n) s = s
  run_calls-Stays (c ∷ cs) fs zero s = s.0
  run_calls-Stays (c ∷ cs) fs (suc n) s =
      after (call P c fs) refl (λ fs₁ k. run_calls-Stays cs fs₁ n k)
    where
      after :
          (r : Result (Unit {0}) × FileSystem)
          → call P c fs ≡ r
          → ((fs₁ : FileSystem) → Stays cs fs₁ → Q (run_calls P (take n cs) fs₁).1)
          → Q (continue r.0 (λ _. run_calls P (take n cs)) r.1).1
      after (ok u, fs₁) made rec = rec fs₁ (s.1 fs₁ (record { made = made }))
      after (err x, fs₁) made rec = subst Q (sym (call_failed P c fs made)) s.0

-- No call of the line writes the file of the path.
abbrev writes_past : FilePath → Call → Bool
writes_past p (required (write q t)) = not (path_eq p q)
writes_past p (best_effort (write q t)) = not (path_eq p q)
writes_past p _ = true

abbrev pub write_past : FilePath → List Call → Bool
write_past p [] = true
write_past p (c ∷ cs) = writes_past p c && write_past p cs

-- A crash in the middle of a write, which leaves some other text in the file; `os.replace` and the
-- other calls are done or not.
module _ (P : Platform) (partial : Text) where
  abbrev torn_write : FilePath → FileSystem → FileSystem
  torn_write p fs =
      if is_immutable (fs p) then fs else set_file p (some (written P partial (fs p))) fs

  abbrev torn : Call → FileSystem → FileSystem
  torn (required (write p t)) fs = torn_write p fs
  torn (best_effort (write p t)) fs = torn_write p fs
  torn _ fs = fs

  abbrev torn_next : List Call → FileSystem → FileSystem
  torn_next [] fs = fs
  torn_next (c ∷ cs) fs = torn c fs

  -- The calls are cut off after the first `n`, in the middle of the next one.
  abbrev pub cut_off : ℕ → List Call → FileSystem → FileSystem
  cut_off n cs fs = torn_next (drop n cs) (run_calls P (take n cs) fs).1

  torn-content :
      (p : FilePath) (c : Call) (fs : FileSystem)
      → writes_past p c ≡ true
      → content_at (torn c fs) p ≡ content_at fs p
  torn-content p (required (write q t)) fs h = ground (arith, h)
  torn-content p (best_effort (write q t)) fs h = ground (arith, h)
  torn-content p _ fs h = refl

  pub cut_off-content :
      (p : FilePath) (n : ℕ) (cs : List Call) (fs : FileSystem)
      → write_past p cs ≡ true
      → content_at (cut_off n cs fs) p ≡ content_at (run_calls P (take n cs) fs).1 p
  cut_off-content p n cs fs h = next (drop n cs) (drop-past n cs h)
    where
      drop-past :
          (m : ℕ) (ds : List Call) → write_past p ds ≡ true → write_past p (drop m ds) ≡ true
      drop-past zero ds k = k
      drop-past (suc m) [] k = k
      drop-past (suc m) (c ∷ ds) k = drop-past m ds (ground (arith, k))

      next :
          (ds : List Call)
          → write_past p ds ≡ true
          → content_at (torn_next ds (run_calls P (take n cs) fs).1) p
            ≡ content_at (run_calls P (take n cs) fs).1 p
      next [] k = refl
      next (c ∷ ds) k = torn-content p c _ (ground (arith, k))
