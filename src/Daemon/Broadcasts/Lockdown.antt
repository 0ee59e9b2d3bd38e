-- ===== src/Daemon/Broadcasts/Lockdown.antt =====
-- Entering and leaving a lockdown, and what is recorded during one.
use usb_defense_system.Prelude.{
  List, ◌≡◌, refl, sym, codes, Bool, true, false, String, Text, arith, [], ◌∷◌, ◌++◌, if◌then◌else◌,
  Bool-cases, inl, inr,
}
use usb_defense_system.Json.{Json, bool, str, obj, field, end, lit, Fields}
use usb_defense_system.Platform.{Platform}
use usb_defense_system.Config.{Config}
use usb_defense_system.Daemon.State.{Daemon, Moment}
use usb_defense_system.Daemon.Lockdown.{
  enter_lockdown, clear_lockdown, record_intrusion, on_tty_switch_attempt, trigger_screen_lock,
}
use usb_defense_system.Daemon.Lockdown.Consistency.{IsConsistent}
use usb_defense_system.Daemon.Broadcasts.{IsTold, silent, announced, lock_after}

abbrev enter_event : Moment → Json → Json
enter_event t offender = obj (
    field "type" (lit "lockdown_enter")
      (field "offender" offender (field "started_at" (str t.now) end)))

abbrev clear_event : Json → Json → Bool → Json
clear_event reason device warn = obj (
    field "type" (lit "lockdown_clear") (
      field "reason" reason
        (field "unlock_device" device (field "warn_regenerate_seed" (bool warn) end))))

module _ (P : Platform) where
  -- What the two transitions do to the lockdown and to the broadcasts, where no flag is immutable.
  pub enter_lockdown-broadcasts :
      {c : Config} (t : Moment) (fields : Fields) (d : Daemon)
      → IsConsistent P c d
      → let d' = (enter_lockdown P t (obj fields) d).1 in
        (d'.locked ≡ true)
        × (d'.broadcasts
            ≡ (if d.locked then d.broadcasts else d.broadcasts ++ enter_event t (obj fields) ∷ []))
  unfolding enter_lockdown trigger_screen_lock
  enter_lockdown-broadcasts t fields d h = let (f, i, j, k) = h.flags_match in ground (arith, i, j)

  pub clear_lockdown-broadcasts :
      {c : Config} (reason device : Json) (warn : Bool) (d : Daemon)
      → IsConsistent P c d
      → let d' = (clear_lockdown P reason device warn d).1 in
        (d'.locked ≡ false)
        × (d'.broadcasts ≡ (
            if d.locked then d.broadcasts ++ clear_event reason device warn ∷ [] else d.broadcasts))
  unfolding clear_lockdown
  clear_lockdown-broadcasts reason device warn d h =
      let (f, i, j, k) = h.flags_match in ground (arith, i, j)

  module _ {past : List Json} {b : Bool} where
    pub enter_lockdown-IsTold :
        {c : Config} (t : Moment) (fields : Fields) (d : Daemon)
        → IsConsistent P c d
        → IsTold past b d
        → IsTold past b (enter_lockdown P t (obj fields) d).1
    unfolding lock_after
    enter_lockdown-IsTold t fields d h told =
        let (l, e) = enter_lockdown-broadcasts t fields d h in
        let d' = (enter_lockdown P t (obj fields) d).1 in
        elim (Bool-cases d.locked) [
          | inl on ↦ silent d d' (ground (arith, on, e)) (cc (l, on)) told
          | inr off ↦
              announced (enter_event t (obj fields)) d d' (ground (arith, off, e)) (sym l) told
        ]

    pub clear_lockdown-IsTold :
        {c : Config} (reason device : Json) (warn : Bool) (d : Daemon)
        → IsConsistent P c d
        → IsTold past b d
        → IsTold past b (clear_lockdown P reason device warn d).1
    unfolding lock_after
    clear_lockdown-IsTold reason device warn d h told =
        let (l, e) = clear_lockdown-broadcasts reason device warn d h in
        let d' = (clear_lockdown P reason device warn d).1 in
        elim (Bool-cases d.locked) [
          | inl on ↦
              announced (clear_event reason device warn) d d' (ground (arith, on, e)) (sym l) told
          | inr off ↦ silent d d' (ground (arith, off, e)) (cc (l, off)) told
        ]

    pub record_intrusion-IsTold :
        (t : Moment) (kind : String) (detail : Text) (extra : Fields) (d : Daemon)
        → IsTold past b d
        → IsTold past b (record_intrusion P t kind detail extra d)
    unfolding record_intrusion lock_after
    record_intrusion-IsTold t kind detail extra d =
        announced
          (obj (
            field "type" (lit "intrusion_attempt")
              (field "kind" (lit kind) (field "detail" (str detail) (field "ts" (str t.now) end)))))
          d (record_intrusion P t kind detail extra d) refl refl

    pub on_tty_switch_attempt-IsTold :
        (t : Moment) (new_tty baseline : Text) (d : Daemon)
        → IsTold past b d
        → IsTold past b (on_tty_switch_attempt P t new_tty baseline d)
    unfolding on_tty_switch_attempt
    on_tty_switch_attempt-IsTold t new_tty baseline d told = by_lock d.locked
      where
        text : Text
        text = codes "Foreground VT changed from " ++ (baseline ++ (codes " to " ++ new_tty))

        extra : Fields
        extra = field "new_tty" (str new_tty) (field "baseline_tty" (str baseline) end)

        by_lock :
            (l : Bool)
            → IsTold past b (if l then record_intrusion P t "TTY_SWITCH" text extra d else d)
        by_lock true = record_intrusion-IsTold t "TTY_SWITCH" text extra d told
        by_lock false = told
