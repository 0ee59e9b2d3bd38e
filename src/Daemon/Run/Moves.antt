-- ===== src/Daemon/Run/Moves.antt =====
-- The lockdown as an abstract machine with two states, over the inputs of a daemon.
use usb_defense_system.Prelude.{
  ◌≡◌, refl, sym, ap, ◌∙◌, Bool, true, false, not, ◌&&◌, ◌||◌, Option, none, some, List, [], ◌∷◌,
  ◌++◌, codes, text_eq, arith, Bool-cases, inl, inr, if◌then◌else◌,
}
use mathlib.Core.Path.{subst}
use usb_defense_system.Json.{Json, truthy}
use usb_defense_system.Platform.{Platform}
use usb_defense_system.Config.{Config}
use usb_defense_system.Monitor.{UsbEvent}
use usb_defense_system.Usbguard.{Tool}
use usb_defense_system.Whitelist.{WhitelistEntry, match_entry}
use usb_defense_system.Daemon.State.{Daemon, Moment}
use usb_defense_system.Daemon.Lockdown.Consistency.{IsConsistent, on_tty_switch_attempt-same}
use usb_defense_system.Daemon.Events.Inserts.{on_usb_event-locked, locked_after, can_tell}
use usb_defense_system.Daemon.Dispatch.Credentials.{
  IsAuthorized, unlock_needs_credential, lock_needs_simulator,
}
use usb_defense_system.Daemon.Run.{Input, usb, command, tty_switch, step, run}
use usb_defense_system.Daemon.Run.Safety.{step-IsConsistent}

-- A device that the whitelist does not know was plugged in, and such devices are blocked.
pub record IsRefused (d : Daemon) (e : UsbEvent) : Type 0 where
  pub adds : text_eq e.action (codes "add") ≡ true
  pub unmatched : match_entry d.store.entries e.vendor_id e.product_id e.serial ≡ none
  pub blocks : truthy d.config.auto_block_unknown ≡ true

-- A device was plugged in whose whitelist entry may end a lockdown.
pub record IsKey (d : Daemon) (e : UsbEvent) : Type 0 where
  pub adds : text_eq e.action (codes "add") ≡ true
  pub entry : WhitelistEntry
  pub matched : match_entry d.store.entries e.vendor_id e.product_id e.serial ≡ some entry
  pub frees : (truthy entry.can_unlock || not (truthy d.config.require_unlock_key)) ≡ true

-- The moves of the machine that an input allows: whether the system is locked before, and after.
pub data Move (P : Platform) (d : Daemon) : Input → Bool → Bool → Type 0 where
  stays : {i : Input} {b : Bool} → Move P d i b b
  locks :
      {t : Moment} {tool : Tool} {e : UsbEvent} → IsRefused d e → Move P d (usb t tool e) false true
  frees_by_key :
      {t : Moment} {tool : Tool} {e : UsbEvent} → IsKey d e → Move P d (usb t tool e) true false
  frees_by_message :
      {t : Moment} {msg : Json} → IsAuthorized P t msg d → Move P d (command t msg) true false

module _ (P : Platform) where
  locked_by :
      (t : Moment) (tool : Tool) (e : UsbEvent) (d : Daemon)
      → d.locked ≡ false
      → (step P (usb t tool e) d).locked ≡ true
      → IsRefused d e
  unfolding step
  locked_by t tool e d l u =
      by_action (text_eq e.action (codes "add")) refl
        (match_entry d.store.entries e.vendor_id e.product_id e.serial) refl
    where
      after :
          (if text_eq e.action (codes "add") && can_tell tool e
            then locked_after d (match_entry d.store.entries e.vendor_id e.product_id e.serial)
            else d.locked)
          ≡ true
      after = sym (on_usb_event-locked P t tool e d) ∙ u

      by_action :
          (adds : Bool)
          → text_eq e.action (codes "add") ≡ adds
          → (o : Option WhitelistEntry)
          → match_entry d.store.entries e.vendor_id e.product_id e.serial ≡ o
          → IsRefused d e
      by_action true a none m = record {
        adds = a;
        unmatched = m;
        blocks = ground (arith, a, m, after, l);
      }
      by_action true a (some entry) m = absurd (ground (arith, a, m, after, l))
      by_action false a o m = absurd (ground (arith, a, after, l))

  freed_by :
      (t : Moment) (tool : Tool) (e : UsbEvent) (d : Daemon)
      → d.locked ≡ true
      → (step P (usb t tool e) d).locked ≡ false
      → IsKey d e
  unfolding step
  freed_by t tool e d l u =
      by_action (text_eq e.action (codes "add")) refl
        (match_entry d.store.entries e.vendor_id e.product_id e.serial) refl
    where
      after :
          (if text_eq e.action (codes "add") && can_tell tool e
            then locked_after d (match_entry d.store.entries e.vendor_id e.product_id e.serial)
            else d.locked)
          ≡ false
      after = sym (on_usb_event-locked P t tool e d) ∙ u

      by_action :
          (adds : Bool)
          → text_eq e.action (codes "add") ≡ adds
          → (o : Option WhitelistEntry)
          → match_entry d.store.entries e.vendor_id e.product_id e.serial ≡ o
          → IsKey d e
      by_action true a none m = absurd (ground (arith, a, m, after, l))
      by_action true a (some entry) m = record {
        adds = a;
        entry = entry;
        matched = m;
        frees = ground (arith, a, m, after, l);
      }
      by_action false a o m = absurd (ground (arith, a, after, l))

  by_values :
      (d : Daemon) (i : Input) (b b' : Bool)
      → (b ≡ false → b' ≡ true → Move P d i false true)
      → (b ≡ true → b' ≡ false → Move P d i true false)
      → Move P d i b b'
  by_values d i true true ups downs = stays
  by_values d i true false ups downs = downs refl refl
  by_values d i false true ups downs = ups refl refl
  by_values d i false false ups downs = stays

  -- With the simulator disabled, every input makes a move of the machine: a lockdown starts only by a
  -- device that was plugged in, is unknown to the whitelist and is to be blocked, and ends only by a
  -- device that was plugged in and whose entry may end it, or by a client's message with a credential
  -- that the throttle let through.
  pub step-Move :
      (i : Input) (d : Daemon)
      → truthy d.config.simulator_enabled ≡ false
      → Move P d i d.locked (step P i d).locked
  unfolding step
  step-Move (usb t tool e) d off =
      by_values d (usb t tool e) d.locked (step P (usb t tool e) d).locked
        (λ l u. locks (locked_by t tool e d l u)) (λ l u. frees_by_key (freed_by t tool e d l u))
  step-Move (command t msg) d off =
      by_values d (command t msg) d.locked (step P (command t msg) d).locked
        (λ l u. absurd (cc ((lock_needs_simulator P t msg d l u).0, off)))
        (λ l u. frees_by_message (unlock_needs_credential P t msg d l u))
  step-Move (tty_switch t new_tty baseline) d off =
      let same = on_tty_switch_attempt-same P t new_tty baseline d in
      subst (Move P d (tty_switch t new_tty baseline) d.locked) (sym same.0) stays

-- The input of a sequence that ended the lockdown: the inputs before it, which left the system
-- locked, and the move that it made.
pub record IsFreed (P : Platform) (inputs : List Input) (d : Daemon) : Type 0 where
  pub before : List Input
  pub cause : Input
  pub after : List Input
  pub split : inputs ≡ before ++ cause ∷ after
  pub held : (run P before d).locked ≡ true
  pub moved : Move P (run P before d) cause true false

later :
    {P : Platform} (i : Input) (is : List Input) (d : Daemon)
    → IsFreed P is (step P i d)
    → IsFreed P (i ∷ is) d
unfolding run
later i is d f = record {
  before = i ∷ f.before;
  cause = f.cause;
  after = f.after;
  split = ap (λ (js : List Input). i ∷ js) f.split;
  held = f.held;
  moved = f.moved;
}

module _ (P : Platform) {c : Config} (off : truthy c.simulator_enabled ≡ false) where
  move :
      (d : Daemon) (i : Input)
      → IsConsistent P c d
      → d.locked ≡ true
      → (step P i d).locked ≡ false
      → Move P d i true false
  move d i h l u = subst (Move P d i true) u (
      subst (λ (b : Bool). Move P d i b (step P i d).locked) l
        (step-Move P i d (ap (λ (k : Config). truthy k.simulator_enabled) h.flags_match.3 ∙ off)))

  -- With the simulator disabled, if a sequence of inputs ends a lockdown, then one of them did: the
  -- system was still locked when it came, and it was a device that was plugged in and whose whitelist
  -- entry may end a lockdown, or a client's message with a credential that the throttle let through.
  pub run-IsFreed :
      (inputs : List Input) (d : Daemon)
      → IsConsistent P c d
      → d.locked ≡ true
      → (run P inputs d).locked ≡ false
      → IsFreed P inputs d
  unfolding run
  run-IsFreed [] d h l u = absurd (cc (l, u))
  run-IsFreed (i ∷ is) d h l u = elim (Bool-cases (step P i d).locked) [
    | inl on ↦ later i is d (run-IsFreed is (step P i d) (step-IsConsistent P off i d h) on u)
    | inr done ↦ record {
      before = [];
      cause = i;
      after = is;
      split = refl;
      held = l;
      moved = move d i h l done;
    }
  ]
