-- ===== src/Ui/SettingsScreen.antt =====
-- usbguard_defense/ui/settings.py: the form of the settings.
use usb_defense_system.Prelude.{ℕ, Bool, true, false, if◌then◌else◌, ltb}
use usb_defense_system.Json.{
  Json, ℤ, pos, negsuc, bool, int, num, Fields, field, end, update, truthy,
}
use usb_defense_system.Exec.{Result, ok, err, type_error, then_do}
use usb_defense_system.Daemon.Commands.{get_or}

-- The configuration that the form was opened with, and its three inputs.
pub record SettingsScreen : Type 0 where
  pub config : Fields
  pub grace_period : ℕ
  pub require_unlock_key : Bool
  pub notify_on_authorized : Bool

-- `setValue` of a `QSpinBox` with the range from 0 to 60
abbrev clamp : ℤ → ℕ
clamp (pos n) = if ltb 60 n then 60 else n
clamp (negsuc n) = 0

abbrev spin_value : Json → Result ℕ
spin_value (int n) = ok (clamp n)
spin_value (bool true) = ok 1
spin_value (bool false) = ok 0
spin_value _ = err type_error

-- `setChecked` takes a truth value, or a number.
abbrev checked : Json → Result Bool
checked (bool b) = ok b
checked (int n) = ok (truthy (int n))
checked _ = err type_error

-- `__init__` and `_build`
unfoldable pub open_settings : Fields → Result SettingsScreen
open_settings config =
    then_do (spin_value (get_or "lockdown_grace_period_sec" (num 0) config)) λ grace.
      then_do (checked (get_or "require_unlock_key" (bool true) config)) λ require.
        then_do (checked (get_or "notify_on_authorized" (bool true) config)) λ notify. ok (record {
          config = config;
          grace_period = grace;
          require_unlock_key = require;
          notify_on_authorized = notify;
        })

-- `_save`: the form after it, and what it hands to `_on_save`
unfoldable pub save : SettingsScreen → SettingsScreen × Fields
unfolding update
save s =
    let config = update s.config (
      field "lockdown_grace_period_sec" (num s.grace_period) (
        field "require_unlock_key" (bool s.require_unlock_key)
          (field "notify_on_authorized" (bool s.notify_on_authorized) end))) in
    (record s { config = config }, config)
