-- ===== src/Files.antt =====
-- The files that the program keeps (config.py names them), and the calls of `pathlib` and `os` on
-- them. A file with the immutable attribute cannot be written, replaced, removed or chmod-ed.
pub mod Content
pub mod Runs
pub mod Frame
use Prim.Native.Nat.{bit_and}
use usb_defense_system.Prelude.{
  ℕ, ◌≡◌, refl, Bool, true, false, not, ◌&&◌, ◌||◌, Option, none, some, List, [], ◌∷◌, ◌==◌,
  if◌then◌else◌, is_some, Text,
}
use usb_defense_system.Exec.{Result, ok, err, Exec, os_error, continue}
use usb_defense_system.Platform.{Platform}

pub data FilePath : Type 0 where
  config_path whitelist_path whitelist_sig_path admin_hash_path : FilePath
  recovery_seed_hash_path master_key_path event_log_path : FilePath
  ipc_socket lockdown_flag pid_file persistent_lockdown_flag : FilePath
  whitelist_tmp whitelist_sig_tmp admin_hash_tmp recovery_seed_hash_tmp master_key_tmp : FilePath
  logind_runtime_dropin tty_active_path : FilePath

abbrev pub index : FilePath → ℕ
index config_path = 0
index whitelist_path = 1
index whitelist_sig_path = 2
index admin_hash_path = 3
index recovery_seed_hash_path = 4
index master_key_path = 5
index event_log_path = 6
index ipc_socket = 7
index lockdown_flag = 8
index pid_file = 9
index persistent_lockdown_flag = 10
index whitelist_tmp = 11
index whitelist_sig_tmp = 12
index admin_hash_tmp = 13
index recovery_seed_hash_tmp = 14
index master_key_tmp = 15
index logind_runtime_dropin = 16
index tty_active_path = 17

abbrev pub path_eq : FilePath → FilePath → Bool
path_eq p q = index p == index q

pub record File : Type 0 where
  pub content : Text
  pub mode : ℕ
  pub immutable : Bool

abbrev pub FileSystem : Type 0
FileSystem = FilePath → Option File

-- The file system with another file, or none, at one path.
abbrev pub set_file : FilePath → Option File → FileSystem → FileSystem
set_file p f fs = λ q. if path_eq q p then f else fs q

-- `path.exists()`
abbrev pub exists : FileSystem → FilePath → Bool
exists fs p = is_some (fs p)

abbrev pub is_immutable : Option File → Bool
is_immutable none = false
is_immutable (some f) = f.immutable

pub data FsOp : Type 0 where
  write : FilePath → Text → FsOp
  replace : FilePath → FilePath → FsOp
  chmod : FilePath → ℕ → FsOp
  unlink : FilePath → FsOp
  toggle_immutable : FilePath → Bool → FsOp

module _ (P : Platform) where
  abbrev pub written : Text → Option File → File
  written t none = record { content = t; mode = P.new_mode; immutable = false }
  written t (some f) = record f { content = t }

  abbrev pub change : FilePath → Option File → (File → File) → FileSystem → Result FileSystem
  change p none g fs = err os_error
  change p (some f) g fs = if f.immutable then err os_error else ok (set_file p (some (g f)) fs)

  abbrev pub moved : FilePath → FilePath → Option File → FileSystem → Result FileSystem
  moved src dst none fs = err os_error
  moved src dst (some f) fs =
      if f.immutable || is_immutable (fs dst)
      then err os_error
      else ok (set_file src none (set_file dst (some f) fs))

  abbrev pub removed : FilePath → Option File → FileSystem → Result FileSystem
  removed p none fs = err os_error
  removed p (some f) fs = if f.immutable then err os_error else ok (set_file p none fs)

  abbrev toggled : FilePath → Bool → Option File → FileSystem → FileSystem
  toggled p flag none fs = fs
  toggled p flag (some f) fs =
      if P.chattr_ok then set_file p (some (record f { immutable = flag })) fs else fs

  -- One call, with the `OSError` that it raises. `toggle_immutable` is `_toggle_immutable` of
  -- whitelist.py, which never raises.
  abbrev pub step : FsOp → FileSystem → Result FileSystem
  step (write p t) fs =
      if is_immutable (fs p) then err os_error else ok (set_file p (some (written t (fs p))) fs)
  step (replace src dst) fs = moved src dst (fs src) fs
  step (chmod p m) fs =
      if P.chmod_ok then change p (fs p) (λ f. record f { mode = m }) fs else err os_error
  step (unlink p) fs = removed p (fs p) fs
  step (toggle_immutable p flag) fs = ok (toggled p flag (fs p) fs)

  abbrev keep_state : FileSystem → Result FileSystem → Result (Unit {0}) × FileSystem
  keep_state fs (ok fs') = (ok tt, fs')
  keep_state fs (err e) = (err e, fs)

  -- A call whose error goes to the caller.
  abbrev pub must : FsOp → Exec FileSystem (Unit {0})
  must o fs = keep_state fs (step o fs)

  -- A call under `try: ... except OSError: pass`.
  abbrev pub may : FsOp → Exec FileSystem (Unit {0})
  may o fs = (ok tt, (must o fs).1)

-- A call in a straight line of calls: its error stops the line, or it is caught.
pub data Call : Type 0 where
  required : FsOp → Call
  best_effort : FsOp → Call

module _ (P : Platform) where
  abbrev pub call : Call → Exec FileSystem (Unit {0})
  call (required o) = must P o
  call (best_effort o) = may P o

  unfoldable pub run_calls : List Call → Exec FileSystem (Unit {0})
  run_calls [] fs = (ok tt, fs)
  run_calls (c ∷ cs) fs = let (r, fs') = call c fs in continue r (λ _. run_calls cs) fs'

-- The call succeeds, and leads from one state to the other.
pub record Returns (P : Platform) (c : Call) (fs fs' : FileSystem) : Type 0 where
  pub made : call P c fs ≡ (ok tt, fs')

-- `path.read_text()`
abbrev pub read_file : Option File → Result Text
read_file none = err os_error
read_file (some f) = ok f.content

abbrev pub read_text : FilePath → Exec FileSystem Text
read_text p fs = (read_file (fs p), fs)

abbrev loose_mode : Option File → Bool
loose_mode none = true
loose_mode (some f) = not (bit_and f.mode 0o77 == 0)

-- `_perms_too_loose`, which auth.py, integrity.py and recovery.py each define.
abbrev pub perms_too_loose : Platform → FilePath → FileSystem → Bool
perms_too_loose P p fs = P.posix && loose_mode (fs p)

abbrev pub has_bytes : Option File → Bool
has_bytes none = false
has_bytes (some f) = elim f.content [ [] ↦ false | _ ∷ _ ↦ true ]
