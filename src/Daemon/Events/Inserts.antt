-- ===== src/Daemon/Events/Inserts.antt =====
-- What a USB device does to the lockdown.
use usb_defense_system.Prelude.{
  ◌≡◌, refl, ◌∙◌, Bool, true, false, Option, none, some, arith, codes, ◌&&◌, ◌||◌, not, text_eq,
  if◌then◌else◌,
}
use usb_defense_system.Json.{truthy, insert}
use usb_defense_system.Platform.{Platform}
use usb_defense_system.Monitor.{UsbEvent}
use usb_defense_system.Usbguard.{Tool, Target, allow, block, UsbGuardDevice, find_by_fingerprint}
use usb_defense_system.Whitelist.{WhitelistEntry, match_entry}
use usb_defense_system.Daemon.State.{Daemon, Moment, log_event}
use usb_defense_system.Daemon.Lockdown.Consistency.{SameLock}
use usb_defense_system.Daemon.Lockdown.{enter_lockdown, clear_lockdown, record_intrusion}
use usb_defense_system.Exec.{Result, ok, err, Exec, continue, modify, pure}
use usb_defense_system.Daemon.Events.{
  event_to_dict, set_found, set_in_usbguard, after_block, after_allow, insert_matched,
  handle_insert, handle_remove, on_usb_event,
}

-- Whether the system is locked after a device was plugged in, by the entry that matched it: an
-- unknown device locks if unknown devices are blocked; a known one unlocks if it is an unlock key,
-- or if no unlock key is required.
abbrev pub locked_after : Daemon → Option WhitelistEntry → Bool
locked_after d none = d.locked || truthy d.config.auto_block_unknown
locked_after d (some entry) =
    d.locked && not (truthy entry.can_unlock || not (truthy d.config.require_unlock_key))

-- Whether USBGuard can be told: its tool runs, and runs again where it lists the device.
abbrev pub is_told : Result (Option UsbGuardDevice) → Result Bool → Bool
is_told (err x) applied = false
is_told (ok none) applied = true
is_told (ok (some g)) (ok done) = true
is_told (ok (some g)) (err x) = false

abbrev pub can_tell : Tool → UsbEvent → Bool
can_tell tool e = is_told (find_by_fingerprint tool e.vendor_id e.product_id e.serial) tool.applied

module _ (P : Platform) (t : Moment) (tool : Tool) (e : UsbEvent) where
  -- What comes after USBGuard was told decides the lock, where it comes to that.
  set-locked :
      (target : Target) (m : Exec Daemon (Unit {0})) (b : Bool) (d : Daemon)
      → ((d' : Daemon) → SameLock d d' → (m d').1.locked ≡ b)
      → (continue
          (set_in_usbguard target tool e d).0
          (λ _. m)
          (set_in_usbguard target tool e d).1).1.locked
        ≡ (if can_tell tool e then b else d.locked)
  unfolding set_in_usbguard
  set-locked target m b d h =
      by_found (find_by_fingerprint tool e.vendor_id e.product_id e.serial) tool.applied
    where
      by_found :
          (found : Result (Option UsbGuardDevice)) (applied : Result Bool)
          → (continue
              (set_found target applied found d).0
              (λ _. m)
              (set_found target applied found d).1).1.locked
            ≡ (if is_told found applied then b else d.locked)
      by_found (err x) applied = refl
      by_found (ok none) applied = h d (refl, refl, refl, refl, refl, refl)
      by_found (ok (some g)) (ok done) = h _ (refl, refl, refl, refl, refl, refl)
      by_found (ok (some g)) (err x) = refl

  after_block-locked :
      (d : Daemon)
      → (after_block P t e d).1.locked ≡ (d.locked || truthy d.config.auto_block_unknown)
  unfolding enter_lockdown record_intrusion
  after_block-locked d = ground arith

  after_allow-locked :
      (entry : WhitelistEntry) (d : Daemon)
      → (after_allow P e entry d).1.locked
        ≡ (d.locked && not (truthy entry.can_unlock || not (truthy d.config.require_unlock_key)))
  unfolding clear_lockdown
  after_allow-locked entry d = ground arith

  insert-locked :
      (d : Daemon) (o : Option WhitelistEntry)
      → (insert_matched P t tool e o d).1.locked
        ≡ (if can_tell tool e then locked_after d o else d.locked)
  insert-locked d none =
      let logged = log_event P t "UNAUTHORIZED" (event_to_dict e) d in
      set-locked block (after_block P t e) (locked_after d none) logged
        λ d' (l, o, s, p, v, c). after_block-locked d' ∙ rw (l, c) refl
  insert-locked d (some entry) =
      let logged = log_event P t "AUTHORIZED" (insert "label" entry.label (event_to_dict e)) d in
      set-locked allow (after_allow P e entry) (locked_after d (some entry)) logged
        λ d' (l, o, s, p, v, c). after_allow-locked entry d' ∙ rw (l, c) refl

  -- After the event of a device that was plugged in, where USBGuard's tool can be run, the system is
  -- locked exactly as `locked_after` says of the whitelist entry that matches the device. Where the
  -- tool cannot be run, and after any other event, it is locked exactly if it was before: then even
  -- an unknown device does not begin a lockdown.
  pub on_usb_event-locked :
      (d : Daemon)
      → (on_usb_event P t tool e d).1.locked ≡ (
          if text_eq e.action (codes "add") && can_tell tool e
          then locked_after d (match_entry d.store.entries e.vendor_id e.product_id e.serial)
          else d.locked)
  unfolding on_usb_event handle_insert handle_remove
  on_usb_event-locked d =
      by_action (text_eq e.action (codes "add")) (text_eq e.action (codes "remove"))
    where
      by_action :
          (adds removes : Bool)
          → ((if adds
                then handle_insert P t tool e
                else if removes
                then modify (handle_remove P t e)
                else pure tt)
              d).1.locked
            ≡ (if adds && can_tell tool e
                then locked_after d (match_entry d.store.entries e.vendor_id e.product_id e.serial)
                else d.locked)
      by_action true _ = insert-locked d _
      by_action false true = refl
      by_action false false = refl
