-- ===== src/Daemon/Broadcasts/Devices.antt =====
-- The handlers of USB events.
use usb_defense_system.Prelude.{
  List, refl, String, ◌≡◌, Bool, true, false, Option, none, some, arith, codes, ◌&&◌, ◌||◌, not,
  text_eq, if◌then◌else◌,
}
use usb_defense_system.Json.{Json, Fields, insert, obj, field, end, lit, truthy}
use usb_defense_system.Exec.{when, modify, pure}
use usb_defense_system.Platform.{Platform}
use usb_defense_system.Config.{Config}
use usb_defense_system.Monitor.{UsbEvent}
use usb_defense_system.Usbguard.{Tool, Target, allow, block}
use usb_defense_system.Whitelist.{WhitelistEntry, match_entry}
use usb_defense_system.Daemon.State.{Daemon, Moment, log_event, broadcast}
use usb_defense_system.Daemon.Lockdown.{enter_lockdown, clear_lockdown, record_intrusion}
use usb_defense_system.Daemon.Lockdown.Consistency.{IsConsistent, same_lock}
use usb_defense_system.Daemon.Events.{
  event_to_dict, set_in_usbguard, insert_matched, after_block, after_allow, record_retry,
  retry_detail, handle_insert, handle_remove, on_usb_event,
}
use usb_defense_system.Daemon.Events.Consistency.{
  refused, admitted, refused-lock, admitted-lock, set_in_usbguard-lock, told-keeps, log_event-lock,
  after_block-IsConsistent, after_allow-IsConsistent,
}
use usb_defense_system.Daemon.Broadcasts.{IsTold, announced, silent, lock_after}
use usb_defense_system.Daemon.Broadcasts.Lockdown.{
  enter_lockdown-IsTold, clear_lockdown-IsTold, record_intrusion-IsTold,
}

set_in_usbguard-silent :
    (tool : Tool) (e : UsbEvent) (target : Target) (d : Daemon)
    → (set_in_usbguard target tool e d).1.broadcasts ≡ d.broadcasts
unfolding set_in_usbguard
set_in_usbguard-silent tool e target d = ground arith

-- What holds of the daemon before and after USBGuard was told.
abbrev IsReady : Platform → List Json → Bool → Config → Daemon → Type 0
IsReady P past b c d = IsConsistent P c d × IsTold past b d

module _ (P : Platform) (t : Moment) (tool : Tool) (e : UsbEvent) {past : List Json}
    {b : Bool} where
  record_retry-IsTold : (d : Daemon) → IsTold past b d → IsTold past b (record_retry P t e d)
  record_retry-IsTold d told = by_lock d.locked
    where
      by_lock :
          (l : Bool)
          → IsTold past b (
              if l
              then record_intrusion P t "USB_RETRY"
                  (retry_detail P e)
                  (field "device" (obj (event_to_dict e)) end)
                  d
              else d)
      by_lock true = record_intrusion-IsTold P t "USB_RETRY" (retry_detail P e) _ d told
      by_lock false = told

  refused-IsTold : (d : Daemon) → IsTold past b d → IsTold past b (refused P t tool e d)
  unfolding lock_after
  refused-IsTold d told =
      let event =
        field "type" (lit "unauthorized_insert") (field "device" (obj (event_to_dict e)) end) in
      record_retry-IsTold (broadcast event d)
        (announced (obj event) d (broadcast event d) refl (ground arith) told)

  admitted-IsTold :
      (entry : WhitelistEntry) (d : Daemon)
      → IsTold past b d
      → IsTold past b (admitted P t tool e entry d)
  unfolding lock_after
  admitted-IsTold entry d told =
      announced
        (obj (
          field "type" (lit "authorized_insert") (
            field "device" (obj (event_to_dict e))
              (field "label" entry.label (field "can_unlock" entry.can_unlock end)))))
        d (admitted P t tool e entry d) (ground arith) (ground arith) told

  after_block-IsTold :
      {c : Config} (d : Daemon)
      → IsConsistent P c d
      → IsTold past b d
      → IsTold past b (after_block P t e d).1
  after_block-IsTold {c} d h told =
      blocking (truthy (refused P t tool e d).config.auto_block_unknown)
    where
      blocking :
          (blocks : Bool)
          → IsTold past b
              (when blocks (enter_lockdown P t (obj (event_to_dict e))) (refused P t tool e d)).1
      blocking true =
          enter_lockdown-IsTold P t (event_to_dict e) (refused P t tool e d)
            (same_lock P d (refused P t tool e d) (refused-lock P t tool e d) h)
            (refused-IsTold d told)
      blocking false = refused-IsTold d told

  after_allow-IsTold :
      {c : Config} (entry : WhitelistEntry) (d : Daemon)
      → IsConsistent P c d
      → IsTold past b d
      → IsTold past b (after_allow P e entry d).1
  after_allow-IsTold {c} entry d h told =
      clearing
        (ready.locked && (truthy entry.can_unlock || not (truthy ready.config.require_unlock_key)))
    where
      ready : Daemon
      ready = admitted P t tool e entry d

      clearing :
          (clears : Bool)
          → IsTold past b
              (when clears
                (clear_lockdown P (lit "authorized USB inserted") (obj (event_to_dict e)) false)
                (admitted P t tool e entry d)).1
      clearing true =
          clear_lockdown-IsTold P _ _ _ (admitted P t tool e entry d)
            (same_lock P d (admitted P t tool e entry d) (admitted-lock P t tool e entry d) h)
            (admitted-IsTold entry d told)
      clearing false = admitted-IsTold entry d told

  set_in_usbguard-IsReady :
      {c : Config} (target : Target) (kind : String) (fields : Fields) (d : Daemon)
      → IsConsistent P c d
      → IsTold past b d
      → IsReady P past b c (set_in_usbguard target tool e (log_event P t kind fields d)).1
  set_in_usbguard-IsReady target kind fields d h told =
      let logged = log_event P t kind fields d in
      let set = (set_in_usbguard target tool e logged).1 in
      let same = set_in_usbguard-lock P t tool e target logged in
      (
        same_lock P logged set same
            (same_lock P d logged (log_event-lock P t tool e kind fields d) h),
        silent logged set (set_in_usbguard-silent tool e target logged) same.0
            (silent d logged refl refl told),
      )

  insert_matched-IsTold :
      {c : Config} (o : Option WhitelistEntry) (d : Daemon)
      → IsConsistent P c d
      → IsTold past b d
      → IsTold past b (insert_matched P t tool e o d).1
  insert_matched-IsTold {c} none d h told =
      (told-keeps P t tool e (IsReady P past b c) (after_block P t e) _
        (set_in_usbguard-IsReady block "UNAUTHORIZED" (event_to_dict e) d h told)
        (λ d' (k, s). (after_block-IsConsistent P t tool e d' k, after_block-IsTold d' k s))).1
  insert_matched-IsTold {c} (some entry) d h told =
      (told-keeps P t tool e (IsReady P past b c) (after_allow P e entry) _
        (set_in_usbguard-IsReady allow "AUTHORIZED" (insert "label" entry.label (event_to_dict e)) d
          h told)
        (λ d' (k, s).
          (after_allow-IsConsistent P t tool e entry d' k, after_allow-IsTold entry d' k s))).1

  handle_remove-IsTold : (d : Daemon) → IsTold past b d → IsTold past b (handle_remove P t e d)
  unfolding handle_remove lock_after
  handle_remove-IsTold d told =
      announced (obj (field "type" (lit "remove") (field "device" (obj (event_to_dict e)) end))) d
        (handle_remove P t e d) refl refl told

  pub on_usb_event-IsTold :
      {c : Config} (d : Daemon)
      → IsConsistent P c d
      → IsTold past b d
      → IsTold past b (on_usb_event P t tool e d).1
  unfolding on_usb_event handle_insert
  on_usb_event-IsTold {c} d h told =
      by_action (text_eq e.action (codes "add")) (text_eq e.action (codes "remove"))
    where
      by_action :
          (adds removes : Bool)
          → IsTold past b
              ((if adds
                  then handle_insert P t tool e
                  else if removes
                  then modify (handle_remove P t e)
                  else pure tt)
                d).1
      by_action true _ =
          insert_matched-IsTold (match_entry d.store.entries e.vendor_id e.product_id e.serial) d h
            told
      by_action false true = handle_remove-IsTold d told
      by_action false false = told
