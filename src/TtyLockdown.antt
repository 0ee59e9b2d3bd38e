-- ===== src/TtyLockdown.antt =====
-- usbguard_defense/tty_lockdown.py: the text consoles, and the watch on the foreground one.
pub mod Masks
pub mod Watching
use usb_defense_system.Prelude.{
  ℕ, suc, String, Bool, true, false, ◌&&◌, ◌||◌, not, Option, none, some, List, [], ◌∷◌, ◌++◌,
  if◌then◌else◌, Text, codes, text_eq, ◌==◌, map, strip,
}
use usb_defense_system.Platform.{Platform}
use usb_defense_system.Files.{
  File, FileSystem, FilePath, FsOp, write, unlink, may, logind_runtime_dropin, tty_active_path,
}

-- `getty@ttyN.service` and `autovt@ttyN.service`
pub data TtyUnit : Type 0 where
  getty : ℕ → TtyUnit
  autovt : ℕ → TtyUnit

abbrev pub unit_eq : TtyUnit → TtyUnit → Bool
unit_eq (getty m) (getty n) = m == n
unit_eq (autovt m) (autovt n) = m == n
unit_eq _ _ = false

abbrev tty_numbers : List ℕ
tty_numbers = 1 ∷ 2 ∷ 3 ∷ 4 ∷ 5 ∷ 6 ∷ []

abbrev pub tty_units : List TtyUnit
tty_units = map getty tty_numbers ++ map autovt tty_numbers

abbrev pub logind_dropin_body : Text
logind_dropin_body =
    codes
      "# Written by usb-defense daemon while a lockdown is active.\n# Removed automatically on unlock.\n[Login]\nNAutoVTs=0\nReserveVT=0\n"

-- The part of the host that systemd keeps, with the files: which units run, which are masked, and
-- how often logind was told to read its configuration.
pub record Host : Type 0 where
  pub files : FileSystem
  pub running : TtyUnit → Bool
  pub masked : TtyUnit → Bool
  pub reloads : ℕ

pub data Systemctl : Type 0 where
  stop : TtyUnit → Systemctl
  mask : TtyUnit → Systemctl
  unmask : TtyUnit → Systemctl
  kill_hup : Systemctl

module _ (P : Platform) where
  abbrev obey : Systemctl → Host → Host
  obey (stop u) h = record h { running = λ v. not (unit_eq v u) && h.running v }
  obey (mask u) h = record h { masked = λ v. unit_eq v u || h.masked v }
  obey (unmask u) h = record h { masked = λ v. not (unit_eq v u) && h.masked v }
  obey kill_hup h = record h { reloads = suc h.reloads }

  -- `_run`; a command that cannot be run is logged and dropped.
  abbrev run : Systemctl → Host → Host
  run c h = if P.systemctl_ok then obey c h else h

  unfoldable pub mask_units : List TtyUnit → Host → Host
  mask_units [] h = h
  mask_units (u ∷ us) h = mask_units us (run (mask u) (run (stop u) h))

  unfoldable pub unmask_units : List TtyUnit → Host → Host
  unmask_units [] h = h
  unmask_units (u ∷ us) h = unmask_units us (run (unmask u) h)

  -- A call whose `OSError` is logged and dropped.
  abbrev attempt : FsOp → Host → Host
  attempt op h = record h { files = (may P op h.files).1 }

  unfoldable pub lock_tty : Host → Host
  lock_tty h =
      run kill_hup
        (attempt (write logind_runtime_dropin logind_dropin_body) (mask_units tty_units h))

  unfoldable pub unlock_tty : Host → Host
  unlock_tty h = run kill_hup (attempt (unlink logind_runtime_dropin) (unmask_units tty_units h))

abbrev active_name : Option File → Text
active_name none = []
active_name (some f) = strip f.content

unfoldable pub current_active_tty : FileSystem → Text
current_active_tty fs = active_name (fs tty_active_path)

-- The watcher thread; `alive` while it runs.
pub record Watcher : Type 0 where
  pub alive : Bool
  pub baseline : Text

unfoldable pub start_watcher : Text → Watcher → Watcher
start_watcher current w = if w.alive then w else record { alive = true; baseline = current }

unfoldable pub stop_watcher : Watcher → Watcher
stop_watcher w = record w { alive = false }

-- One round of `_run`: the terminal that is reported, if any, and the new `last_reported`.
unfoldable pub poll : Text → Text → Text → Option Text × Text
poll baseline last_reported current =
    if not (text_eq current [])
      && not (text_eq current baseline)
      && not (text_eq current last_reported)
    then (some current, current)
    else if text_eq current baseline
    then (none, [])
    else (none, last_reported)

-- The loop over what `current_active_tty` returns in each round, up to the stop.
unfoldable pub watch_from : Text → Text → List Text → List Text
unfolding poll
watch_from baseline last_reported [] = []
watch_from baseline last_reported (current ∷ rest) =
    let (report, last) = poll baseline last_reported current in
    let more = watch_from baseline last rest in elim report [ none ↦ more | some t ↦ t ∷ more ]

-- What the callback is given during one run of the thread.
unfoldable pub watch : Text → List Text → List Text
unfolding watch_from
watch baseline rounds = watch_from baseline [] rounds
