-- ===== src/TtyLockdown/Masks.antt =====
-- What locking and unlocking the consoles do to the units and to the files.
use usb_defense_system.Prelude.{
  ◌≡◌, refl, sym, leb, ◌∙◌, ap, Bool, true, false, not, ◌&&◌, ◌||◌, List, [], ◌∷◌, arith,
}
use usb_defense_system.Platform.{Platform}
use usb_defense_system.Files.{
  FilePath, FileSystem, path_eq, logind_runtime_dropin, best_effort, write, unlink,
}
use usb_defense_system.Files.Frame.{call-spared}
use usb_defense_system.TtyLockdown.{
  TtyUnit, getty, autovt, unit_eq, Host, tty_units, mask_units, unmask_units, lock_tty, unlock_tty,
  logind_dropin_body, run, stop, mask, unmask, kill_hup,
}

unfoldable pub contains : List TtyUnit → TtyUnit → Bool
contains [] v = false
contains (u ∷ us) v = unit_eq v u || contains us v

-- The console units: getty and autovt on tty1 to tty6
abbrev pub is_console : TtyUnit → Bool
is_console (getty n) = leb 1 n && leb n 6
is_console (autovt n) = leb 1 n && leb n 6

tty_units-is_console : (v : TtyUnit) → contains tty_units v ≡ is_console v
unfolding contains
tty_units-is_console (getty n) = ground arith
tty_units-is_console (autovt n) = ground arith

module _ (P : Platform) where
  mask_units-files : (us : List TtyUnit) (h : Host) → (mask_units P us h).files ≡ h.files
  unfolding mask_units
  mask_units-files [] h = refl
  mask_units-files (u ∷ us) h = mask_units-files us _ ∙ ground arith

  unmask_units-files : (us : List TtyUnit) (h : Host) → (unmask_units P us h).files ≡ h.files
  unfolding unmask_units
  unmask_units-files [] h = refl
  unmask_units-files (u ∷ us) h = unmask_units-files us _ ∙ ground arith

  reload-files : (q : FilePath) (h : Host) → (run P kill_hup h).files q ≡ h.files q
  reload-files q h = ground arith

  pub lock_tty-files :
      (q : FilePath) (h : Host)
      → path_eq q logind_runtime_dropin ≡ false
      → (lock_tty P h).files q ≡ h.files q
  unfolding lock_tty
  lock_tty-files q h e =
      reload-files q _
      ∙ call-spared P q (best_effort (write logind_runtime_dropin logind_dropin_body))
          (mask_units P tty_units h).files (rw e)
      ∙ ap (λ (f : FileSystem). f q) (mask_units-files tty_units h)

  pub unlock_tty-files :
      (q : FilePath) (h : Host)
      → path_eq q logind_runtime_dropin ≡ false
      → (unlock_tty P h).files q ≡ h.files q
  unfolding unlock_tty
  unlock_tty-files q h e =
      reload-files q _
      ∙ call-spared P q (best_effort (unlink logind_runtime_dropin))
          (unmask_units P tty_units h).files (rw e)
      ∙ ap (λ (f : FileSystem). f q) (unmask_units-files tty_units h)

  mask_units-masked :
      (us : List TtyUnit) (h : Host) (v : TtyUnit)
      → P.systemctl_ok ≡ true
      → ((mask_units P us h).masked v ≡ (contains us v || h.masked v))
        × ((mask_units P us h).running v ≡ (not (contains us v) && h.running v))
  unfolding mask_units contains
  mask_units-masked [] h v e = (refl, refl)
  mask_units-masked (u ∷ us) h v e =
      ground (arith, mask_units-masked us (run P (mask u) (run P (stop u) h)) v e)

  unmask_units-masked :
      (us : List TtyUnit) (h : Host) (v : TtyUnit)
      → P.systemctl_ok ≡ true
      → ((unmask_units P us h).masked v ≡ (not (contains us v) && h.masked v))
        × ((unmask_units P us h).running v ≡ h.running v)
  unfolding unmask_units contains
  unmask_units-masked [] h v e = (refl, refl)
  unmask_units-masked (u ∷ us) h v e =
      ground (arith, unmask_units-masked us (run P (unmask u) h) v e)

  reload-masked :
      (h : Host) (v : TtyUnit)
      → ((run P kill_hup h).masked v ≡ h.masked v) × ((run P kill_hup h).running v ≡ h.running v)
  reload-masked h v = ground arith

  -- Where systemctl works, `lock_tty` leaves exactly the twelve console units (getty and autovt on
  -- tty1 to tty6) masked and stopped besides what was masked before, and touches no other unit.
  pub lock_tty-masked :
      (h : Host) (v : TtyUnit)
      → P.systemctl_ok ≡ true
      → ((lock_tty P h).masked v ≡ (is_console v || h.masked v))
        × ((lock_tty P h).running v ≡ (not (is_console v) && h.running v))
  unfolding lock_tty
  lock_tty-masked h v e =
      let (m, r) = mask_units-masked tty_units h v e in
      let (m', r') = reload-masked _ v in rw (sym (tty_units-is_console v)) (m' ∙ m, r' ∙ r)

  unlock_tty-masked :
      (h : Host) (v : TtyUnit)
      → P.systemctl_ok ≡ true
      → (unlock_tty P h).masked v ≡ (not (is_console v) && h.masked v)
  unfolding unlock_tty
  unlock_tty-masked h v e =
      (reload-masked _ v).0
      ∙ (unmask_units-masked tty_units h v e).0
      ∙ rw (tty_units-is_console v) refl

  -- Where systemctl works, `lock_tty` leaves a unit masked exactly if it is a console unit (getty or
  -- autovt on tty1 to tty6) or was masked before, and running exactly if it is none and was running
  -- before; and `unlock_tty` after that leaves a unit masked exactly if it is no console unit and was
  -- masked before.
  pub unlock_tty-lock_tty :
      (h : Host) (v : TtyUnit)
      → P.systemctl_ok ≡ true
      → ((lock_tty P h).masked v ≡ (is_console v || h.masked v))
        × ((lock_tty P h).running v ≡ (not (is_console v) && h.running v))
        × ((unlock_tty P (lock_tty P h)).masked v ≡ (not (is_console v) && h.masked v))
  unlock_tty-lock_tty h v e =
      let (m, r) = lock_tty-masked h v e in
      (m, r, unlock_tty-masked (lock_tty P h) v e ∙ undone (is_console v) (h.masked v) m)
    where
      undone :
          (c m : Bool)
          → (lock_tty P h).masked v ≡ (c || m)
          → (not c && (lock_tty P h).masked v) ≡ (not c && m)
      undone c m k = ground arith
