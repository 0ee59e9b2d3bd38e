-- ===== src/Tests/Host.antt =====
-- A host whose argon2, HMAC and JSON codec are simple functions, with some files and a daemon.
use usb_defense_system.Prelude.{
  Bool, true, false, none, some, [], ◌∷◌, ◌++◌, ◌||◌, if◌then◌else◌, Text, codes, text_eq,
}
use usb_defense_system.Json.{Json, null, bool, str, obj, lit, field, end, Fields}
use usb_defense_system.Platform.{Platform, matches, mismatch}
use usb_defense_system.Files.{File, FileSystem, set_file, admin_hash_path}
use usb_defense_system.Config.{Config, default_config}
use usb_defense_system.Whitelist.{WhitelistEntry, Store}
use usb_defense_system.Exec.{ok}
use usb_defense_system.Usbguard.{Tool}
use usb_defense_system.Monitor.{UsbEvent}
use usb_defense_system.TtyLockdown.{Host}
use usb_defense_system.Daemon.State.{Daemon, Moment}

-- The codec writes every value as one text, and reads that text as the given value.
abbrev pub host_with : Json → Platform
host_with j = record {
  dumps = λ _. codes "{}";
  loads = λ t. if text_eq t (codes "{}") || text_eq t (codes "{}\n") then some j else none;
  decodes = λ _. true;
  yaml_load = λ _. null;
  hmac_hex =
      λ key content. if text_eq key (codes "key") then codes "mac:" ++ content else codes "0";
  hash = λ password salt. salt ++ password;
  verify_hash = λ encoded guess. if text_eq encoded (codes "$" ++ guess) then matches else mismatch;
  show = λ _. codes "value";
  error_text = λ _. codes "error";
  posix = true;
  new_mode = 0o600;
  chmod_ok = true;
  chattr_ok = true;
  systemctl_ok = true;
}

abbrev pub host : Platform
host = host_with null

abbrev pub private_file : Text → File
private_file content = record { content = content; mode = 0o600; immutable = false }

abbrev pub no_files : FileSystem
no_files = λ p. none

abbrev pub password : Text
password = codes "correct horse"

abbrev pub with_password : FileSystem
with_password = set_file admin_hash_path (some (private_file (codes "$" ++ password))) no_files

abbrev pub stick : WhitelistEntry
stick = record {
  id = lit "e1";
  label = lit "stick";
  vendor_id = lit "0781";
  product_id = lit "5567";
  serial = lit "A1";
  device_class = lit "Mass Storage";
  added_by = lit "admin";
  added_at = lit "2026-01-01";
  can_unlock = bool true;
}

abbrev pub store_of : FileSystem → Store
store_of fs = record {
  files = fs;
  master_key = some (codes "key");
  entries = stick ∷ [];
  integrity_failed = false;
}

abbrev pub daemon : FileSystem → Config → Bool → Json → Json → Daemon
daemon fs config locked offender since = record {
  store = store_of fs;
  config = config;
  locked = locked;
  lock_offender = offender;
  lock_started_at = since;
  auth_failures = 0;
  auth_lockout_until = 0;
  watcher = record { alive = false; baseline = [] };
  running = λ u. true;
  masked = λ u. false;
  reloads = 0;
  screen_locks = 0;
  broadcasts = [];
  policies = [];
}

abbrev pub unlocked_daemon : Daemon
unlocked_daemon = daemon with_password default_config false null null

abbrev pub offending : Fields
offending = field "fingerprint" (lit "0951:1666:B2") end

abbrev pub locked_daemon : Daemon
locked_daemon = daemon with_password default_config true (obj offending) (lit "noon")

abbrev pub moment : Moment
moment = record { monotonic = 100; now = codes "noon"; uuid = codes "u1" }

-- A client's message, with the password.
abbrev pub request : Text → Fields → Json
request cmd more = obj (field "cmd" (str cmd) (field "password" (str password) more))

abbrev pub console_host : Host
console_host = record { files = no_files; running = λ u. true; masked = λ u. false; reloads = 0 }

abbrev pub plugged : Text → UsbEvent
plugged serial = record {
  action = codes "add";
  vendor_id = codes "0781";
  product_id = codes "5567";
  serial = serial;
  manufacturer = codes "SanDisk";
  product = codes "Cruzer";
  device_class_name = codes "Mass Storage";
  usb_version = codes "2.00";
  capacity_bytes = none;
  devnode = none;
  device_class = codes "08";
  sysfs_path = codes "/sys/usb1";
}

-- USBGuard's tool runs, and fails to list the devices.
abbrev pub quiet : Tool
quiet = record { listing = ok none; applied = ok true }
