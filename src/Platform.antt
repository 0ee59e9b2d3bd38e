-- ===== src/Platform.antt =====
-- What the program takes from outside its own source: argon2, HMAC, the JSON and YAML codecs, the
-- host's file permissions and tools. Each is a function of the record, and has no law here.
use usb_defense_system.Prelude.{ℕ, Bool, Option, Text}
use usb_defense_system.Json.{Json}
use usb_defense_system.Exec.{Error}

-- The outcomes of `PasswordHasher.verify`: it returns, or raises `VerifyMismatchError`,
-- `InvalidHashError`, or another error.
pub data Verdict : Type 0 where
  matches mismatch invalid_hash failed : Verdict

pub record Platform : Type 0 where
  -- `json.dumps` and `json.loads`; `none` is a `JSONDecodeError`. For the text of a file that is read,
  -- it also is a `UnicodeDecodeError`, which the readers catch alike.
  pub dumps : Json → Text
  pub loads : Text → Option Json
  -- whether `line.decode("utf-8")` returns for the bytes of a line, or raises a `UnicodeDecodeError`
  pub decodes : Text → Bool
  -- `yaml.safe_load` of a file that parses
  pub yaml_load : Text → Json
  -- `hmac.new(key, data, sha256).hexdigest()`: key, data
  pub hmac_hex : Text → Text → Text
  -- `PasswordHasher.hash` of a password under a salt, and `verify` of an encoded hash
  pub hash : Text → Text → Text
  pub verify_hash : Text → Text → Verdict
  -- `str(value)` of a JSON value
  pub show : Json → Text
  -- `str(exc)`
  pub error_text : Error → Text
  -- `os.name == "posix"`
  pub posix : Bool
  -- the permission bits of a new file
  pub new_mode : ℕ
  -- whether `os.chmod` is permitted, and whether `chattr` is installed and the file system obeys it
  pub chmod_ok : Bool
  pub chattr_ok : Bool
  -- whether `systemctl` and `loginctl` can be run and do what they are asked
  pub systemctl_ok : Bool
