-- ===== src/Daemon/Events.antt =====
-- The handlers of USB events: `_on_usb_event`, `_handle_insert`, `_handle_remove`.
pub mod Inserts
pub mod Consistency
use usb_defense_system.Prelude.{
  ℕ, Bool, true, false, not, ◌&&◌, ◌||◌, String, Option, none, some, List, [], ◌∷◌, ◌++◌,
  if◌then◌else◌, Text, codes, text_eq,
}
use usb_defense_system.Json.{
  Json, null, bool, str, obj, num, lit, field, end, Fields, insert, truthy,
}
use usb_defense_system.Exec.{Result, ok, err, Exec, pure, raise, modify, gets, when, ◌>>=◌, ◌>>◌}
use usb_defense_system.Platform.{Platform}
use usb_defense_system.Monitor.{UsbEvent, fingerprint}
use usb_defense_system.Usbguard.{Target, Tool, allow, block, find_by_fingerprint, UsbGuardDevice}
use usb_defense_system.Whitelist.{WhitelistEntry, match_entry}
use usb_defense_system.Daemon.State.{Daemon, Moment, broadcast, log_event}
use usb_defense_system.Daemon.Lockdown.{enter_lockdown, clear_lockdown, record_intrusion}

abbrev text_or_none : Option Text → Json
text_or_none none = null
text_or_none (some t) = str t

abbrev number_or_none : Option ℕ → Json
number_or_none none = null
number_or_none (some n) = num n

-- `_event_to_dict`
unfoldable pub event_to_dict : UsbEvent → Fields
unfolding fingerprint
event_to_dict e = field "vendor_id" (str e.vendor_id) (
    field "product_id" (str e.product_id) (
      field "serial" (str e.serial) (
        field "fingerprint" (str (fingerprint e)) (
          field "device_class" (str e.device_class_name) (
            field "manufacturer" (str e.manufacturer) (
              field "product" (str e.product) (
                field "usb_version" (str e.usb_version) (
                  field "capacity_bytes" (number_or_none e.capacity_bytes)
                    (field "devnode" (text_or_none e.devnode) end)))))))))

-- `USBGuard.allow_device` and `USBGuard.block_device`, which call `_set_target`; both callers drop its
-- result, but not what it raises.
abbrev pub set_target : Target → Result Bool → UsbGuardDevice → Exec Daemon (Unit {0})
set_target target (err x) g d = (err x, d)
set_target target (ok done) g d = (
  ok tt,
  record d { policies = d.policies ++ record { device_id = g.device_id; target = target } ∷ [] },
)

abbrev pub set_found :
    Target → Result Bool → Result (Option UsbGuardDevice) → Exec Daemon (Unit {0})
set_found target applied (err x) d = (err x, d)
set_found target applied (ok none) d = (ok tt, d)
set_found target applied (ok (some g)) d = set_target target applied g d

-- `_allow_in_usbguard` and `_block_in_usbguard`
unfoldable pub set_in_usbguard : Target → Tool → UsbEvent → Exec Daemon (Unit {0})
set_in_usbguard target tool e =
    set_found target tool.applied (find_by_fingerprint tool e.vendor_id e.product_id e.serial)

module _ (P : Platform) where
  -- What `_handle_insert` does for an authorized device, once USBGuard was told.
  abbrev pub after_allow : UsbEvent → WhitelistEntry → Exec Daemon (Unit {0})
  after_allow e entry = do
    modify (
        broadcast (
          field "type" (lit "authorized_insert") (
            field "device" (obj (event_to_dict e))
              (field "label" entry.label (field "can_unlock" entry.can_unlock end)))))
    clears ←
        gets
          (λ d. d.locked && (truthy entry.can_unlock || not (truthy d.config.require_unlock_key)))
    when clears (clear_lockdown P (lit "authorized USB inserted") (obj (event_to_dict e)) false)

  abbrev pub insert_authorized : Moment → Tool → UsbEvent → WhitelistEntry → Exec Daemon (Unit {0})
  insert_authorized t tool e entry = do
    modify (log_event P t "AUTHORIZED" (insert "label" entry.label (event_to_dict e)))
    set_in_usbguard allow tool e
    after_allow e entry

  abbrev pub retry_detail : UsbEvent → Text
  retry_detail e =
      codes "Unauthorized USB re-inserted: "
      ++ (e.manufacturer
          ++ (codes " " ++ (e.product ++ (codes " (" ++ (fingerprint e ++ codes ")")))))

  abbrev pub record_retry : Moment → UsbEvent → Daemon → Daemon
  record_retry t e d =
      if d.locked
      then record_intrusion P t "USB_RETRY" (retry_detail e)
          (field "device" (obj (event_to_dict e)) end) d
      else d

  -- What `_handle_insert` does for an unauthorized device, once USBGuard was told.
  abbrev pub after_block : Moment → UsbEvent → Exec Daemon (Unit {0})
  after_block t e = do
    modify (
        broadcast
          (field "type" (lit "unauthorized_insert") (field "device" (obj (event_to_dict e)) end)))
    modify (record_retry t e)
    blocks ← gets (λ d. truthy d.config.auto_block_unknown)
    when blocks (enter_lockdown P t (obj (event_to_dict e)))

  abbrev pub insert_unauthorized : Moment → Tool → UsbEvent → Exec Daemon (Unit {0})
  insert_unauthorized t tool e = do
    modify (log_event P t "UNAUTHORIZED" (event_to_dict e))
    set_in_usbguard block tool e
    after_block t e

  abbrev pub insert_matched :
      Moment → Tool → UsbEvent → Option WhitelistEntry → Exec Daemon (Unit {0})
  insert_matched t tool e none = insert_unauthorized t tool e
  insert_matched t tool e (some entry) = insert_authorized t tool e entry

  -- `_handle_insert`
  unfoldable pub handle_insert : Moment → Tool → UsbEvent → Exec Daemon (Unit {0})
  handle_insert t tool e d =
      insert_matched t tool e (match_entry d.store.entries e.vendor_id e.product_id e.serial) d

  -- `_handle_remove`
  unfoldable pub handle_remove : Moment → UsbEvent → Daemon → Daemon
  handle_remove t e d =
      broadcast (field "type" (lit "remove") (field "device" (obj (event_to_dict e)) end))
        (log_event P t "REMOVE" (event_to_dict e) d)

  -- `_on_usb_event`
  unfoldable pub on_usb_event : Moment → Tool → UsbEvent → Exec Daemon (Unit {0})
  unfolding handle_insert handle_remove
  on_usb_event t tool e =
      if text_eq e.action (codes "add")
      then handle_insert t tool e
      else if text_eq e.action (codes "remove")
      then modify (handle_remove t e)
      else pure tt
