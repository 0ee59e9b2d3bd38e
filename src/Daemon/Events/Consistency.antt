-- ===== src/Daemon/Events/Consistency.antt =====
-- The flag files and the lockdown in memory, over the handlers of USB events.
use usb_defense_system.Prelude.{
  String, Bool, true, false, Option, none, some, arith, codes, ◌&&◌, ◌||◌, not, text_eq,
  if◌then◌else◌,
}
use usb_defense_system.Json.{Fields, obj, field, end, lit, insert, truthy}
use usb_defense_system.Exec.{Result, ok, err, Exec, continue, when, modify, pure}
use usb_defense_system.Platform.{Platform}
use usb_defense_system.Config.{Config}
use usb_defense_system.EventLog
use usb_defense_system.Monitor.{UsbEvent}
use usb_defense_system.Usbguard.{Tool, Target, allow, block}
use usb_defense_system.Whitelist.{WhitelistEntry, match_entry}
use usb_defense_system.Daemon.State.{Daemon, Moment, log_event, broadcast}
use usb_defense_system.Daemon.Lockdown.{enter_lockdown, clear_lockdown, record_intrusion}
use usb_defense_system.Daemon.Lockdown.Consistency.{
  IsConsistent, SameLock, same_lock, enter_lockdown-IsConsistent, clear_lockdown-IsConsistent,
}
use usb_defense_system.Daemon.Events.{
  event_to_dict, set_in_usbguard, insert_matched, after_block, after_allow, record_retry,
  handle_insert, handle_remove, on_usb_event,
}

module _ (P : Platform) (t : Moment) (tool : Tool) (e : UsbEvent) where
  -- the state before an unauthorized device starts a lockdown
  abbrev pub refused : Daemon → Daemon
  refused d = record_retry P t e (
      broadcast
        (field "type" (lit "unauthorized_insert") (field "device" (obj (event_to_dict e)) end)) d)

  -- the state before an authorized device may end one
  abbrev pub admitted : WhitelistEntry → Daemon → Daemon
  admitted entry d =
      broadcast
        (field "type" (lit "authorized_insert") (
          field "device" (obj (event_to_dict e))
            (field "label" entry.label (field "can_unlock" entry.can_unlock end))))
        d

  pub refused-lock : (d : Daemon) → SameLock d (refused d)
  unfolding record_intrusion EventLog.write
  refused-lock d = ground arith

  pub admitted-lock : (entry : WhitelistEntry) (d : Daemon) → SameLock d (admitted entry d)
  admitted-lock entry d = ground arith

  -- USBGuard is told a policy, and the lockdown stays what it was.
  pub set_in_usbguard-lock :
      (target : Target) (d : Daemon) → SameLock d (set_in_usbguard target tool e d).1
  unfolding set_in_usbguard
  set_in_usbguard-lock target d = ground arith

  pub after_block-IsConsistent :
      {c : Config} (d : Daemon) → IsConsistent P c d → IsConsistent P c (after_block P t e d).1
  after_block-IsConsistent {c} d h = blocking (truthy (refused d).config.auto_block_unknown)
    where
      ready : IsConsistent P c (refused d)
      ready = same_lock P d (refused d) (refused-lock d) h

      blocking :
          (b : Bool)
          → IsConsistent P c (when b (enter_lockdown P t (obj (event_to_dict e))) (refused d)).1
      blocking true = enter_lockdown-IsConsistent P t (event_to_dict e) (refused d) ready
      blocking false = ready

  pub after_allow-IsConsistent :
      {c : Config} (entry : WhitelistEntry) (d : Daemon)
      → IsConsistent P c d
      → IsConsistent P c (after_allow P e entry d).1
  after_allow-IsConsistent {c} entry d h = clearing (
      (admitted entry d).locked
      && (truthy entry.can_unlock || not (truthy (admitted entry d).config.require_unlock_key)))
    where
      ready : IsConsistent P c (admitted entry d)
      ready = same_lock P d (admitted entry d) (admitted-lock entry d) h

      clearing :
          (b : Bool)
          → IsConsistent P c
              (when b
                (clear_lockdown P (lit "authorized USB inserted") (obj (event_to_dict e)) false)
                (admitted entry d)).1
      clearing true = clear_lockdown-IsConsistent P _ _ _ (admitted entry d) ready
      clearing false = ready

  -- A property of the daemon that telling USBGuard keeps holds after telling it and going on.
  pub told-keeps :
      (Q : Daemon → Type 0) (m : Exec Daemon (Unit {0})) (r : Result (Unit {0}) × Daemon)
      → Q r.1
      → ((d : Daemon) → Q d → Q (m d).1)
      → Q (continue r.0 (λ _. m) r.1).1
  told-keeps Q m (ok u, d) q keeps = keeps d q
  told-keeps Q m (err x, d) q keeps = q

  pub log_event-lock :
      (kind : String) (fields : Fields) (d : Daemon) → SameLock d (log_event P t kind fields d)
  unfolding EventLog.write
  log_event-lock kind fields d = ground arith

  insert_matched-IsConsistent :
      {c : Config} (o : Option WhitelistEntry) (d : Daemon)
      → IsConsistent P c d
      → IsConsistent P c (insert_matched P t tool e o d).1
  insert_matched-IsConsistent {c} none d h =
      let logged = log_event P t "UNAUTHORIZED" (event_to_dict e) d in
      told-keeps (IsConsistent P c) (after_block P t e) (set_in_usbguard block tool e logged)
        (same_lock P logged (set_in_usbguard block tool e logged).1
          (set_in_usbguard-lock block logged)
          (same_lock P d logged (log_event-lock "UNAUTHORIZED" (event_to_dict e) d) h))
        (λ d' k. after_block-IsConsistent d' k)
  insert_matched-IsConsistent {c} (some entry) d h =
      let fields = insert "label" entry.label (event_to_dict e) in
      let logged = log_event P t "AUTHORIZED" fields d in
      told-keeps (IsConsistent P c) (after_allow P e entry) (set_in_usbguard allow tool e logged)
        (same_lock P logged (set_in_usbguard allow tool e logged).1
          (set_in_usbguard-lock allow logged)
          (same_lock P d logged (log_event-lock "AUTHORIZED" fields d) h))
        (λ d' k. after_allow-IsConsistent entry d' k)

  handle_remove-lock : (d : Daemon) → SameLock d (handle_remove P t e d)
  unfolding handle_remove EventLog.write
  handle_remove-lock d = ground arith

  pub on_usb_event-IsConsistent :
      {c : Config} (d : Daemon)
      → IsConsistent P c d
      → IsConsistent P c (on_usb_event P t tool e d).1
  unfolding on_usb_event handle_insert
  on_usb_event-IsConsistent {c} d h =
      by_action (text_eq e.action (codes "add")) (text_eq e.action (codes "remove"))
    where
      by_action :
          (adds removes : Bool)
          → IsConsistent P c
              ((if adds
                  then handle_insert P t tool e
                  else if removes
                  then modify (handle_remove P t e)
                  else pure tt)
                d).1
      by_action true _ =
          insert_matched-IsConsistent
            (match_entry d.store.entries e.vendor_id e.product_id e.serial) d h
      by_action false true = same_lock P d (handle_remove P t e d) (handle_remove-lock d) h
      by_action false false = h
