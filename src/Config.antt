-- ===== src/Config.antt =====
-- usbguard_defense/config.py: the settings, and `load_config`. A YAML file may give a setting a value
-- of any type, so a setting is a JSON value. `hasattr` is modelled for the names of the settings.
use usb_defense_system.Prelude.{true, false, String, Option, none, some, if◌then◌else◌, str_eq}
use usb_defense_system.Json.{Json, bool, obj, num, lit, Fields, end, field, or_else}
use usb_defense_system.Exec.{Result, ok, err, attribute_error}
use usb_defense_system.Platform.{Platform}
use usb_defense_system.Files.{FileSystem, File, config_path}

pub record Config : Type 0 where
  pub lockdown_grace_period_sec : Json
  pub lockdown_screen_lock : Json
  pub require_unlock_key : Json
  pub daemon_log_level : Json
  pub notify_on_authorized : Json
  pub auto_block_unknown : Json
  pub audit_journald : Json
  pub audit_flat_file : Json
  pub simulator_enabled : Json

abbrev pub default_config : Config
default_config = record {
  lockdown_grace_period_sec = num 0;
  lockdown_screen_lock = bool true;
  require_unlock_key = bool true;
  daemon_log_level = lit "INFO";
  notify_on_authorized = bool true;
  auto_block_unknown = bool true;
  audit_journald = bool true;
  audit_flat_file = bool true;
  simulator_enabled = bool false;
}

-- `setattr(cfg, key, value)` if `hasattr(cfg, key)`
unfoldable pub set_attribute : String → Json → Config → Config
set_attribute key v c =
    if str_eq key "lockdown_grace_period_sec"
    then record c { lockdown_grace_period_sec = v }
    else if str_eq key "lockdown_screen_lock"
    then record c { lockdown_screen_lock = v }
    else if str_eq key "require_unlock_key"
    then record c { require_unlock_key = v }
    else if str_eq key "daemon_log_level"
    then record c { daemon_log_level = v }
    else if str_eq key "notify_on_authorized"
    then record c { notify_on_authorized = v }
    else if str_eq key "auto_block_unknown"
    then record c { auto_block_unknown = v }
    else if str_eq key "audit_journald"
    then record c { audit_journald = v }
    else if str_eq key "audit_flat_file"
    then record c { audit_flat_file = v }
    else if str_eq key "simulator_enabled"
    then record c { simulator_enabled = v }
    else c

unfoldable pub apply_settings : Fields → Config → Config
unfolding set_attribute
apply_settings end c = c
apply_settings (field key v rest) c = apply_settings rest (set_attribute key v c)

-- `data.items()` raises on a value that is no mapping.
abbrev settings_of : Json → Result Config
settings_of (obj fs) = ok (apply_settings fs default_config)
settings_of _ = err attribute_error

abbrev pub config_of_file : Platform → Option File → Result Config
config_of_file P none = ok default_config
config_of_file P (some f) = settings_of (or_else (P.yaml_load f.content) (obj end))

unfoldable pub load_config : Platform → FileSystem → Result Config
unfolding apply_settings
load_config P fs = config_of_file P (fs config_path)
