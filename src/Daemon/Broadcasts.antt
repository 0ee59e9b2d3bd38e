-- ===== src/Daemon/Broadcasts.antt =====
-- What the broadcasts of the daemon tell a client about the lockdown.
pub mod Lockdown
pub mod Devices
pub mod Whitelisting
pub mod Unlocking
pub mod Runs
use usb_defense_system.Prelude.{
  ◌≡◌, refl, sym, ap, ◌∙◌, Bool, true, false, not, ◌&&◌, ◌||◌, if◌then◌else◌, List, [], ◌∷◌, ◌++◌,
}
use mathlib.Core.List.{append_assoc, append-nil}
use usb_defense_system.Json.{
  Json, null, bool, int, str, arr, obj, Fields, end, lookup, truthy, or_else,
}
use usb_defense_system.Daemon.State.{Daemon, broadcast}
use usb_defense_system.Daemon.Commands.{get, get_or}
use usb_defense_system.Ui.EventKind.{EventKind, lockdown_enter, lockdown_clear, status, kind_of}

abbrev pub is_object : Json → Bool
is_object (obj fs) = true
is_object _ = false

abbrev pub is_time : Json → Bool
is_time (str s) = true
is_time j = not (truthy j)

-- An offender and a time that a client can show.
abbrev pub can_show : Json → Json → Bool
can_show offender started_at = is_object offender && is_time started_at

-- What a client takes from the status of the daemon.
abbrev pub status_lock : Fields → Bool → Bool
status_lock event b =
    if truthy (get "locked" event)
    then can_show (or_else (get "offender" event) (obj end)) (get "started_at" event) || b
    else false

abbrev pub lock_of : EventKind → Fields → Bool → Bool
lock_of lockdown_enter event b =
    can_show (get_or "offender" (obj end) event) (get "started_at" event) || b
lock_of lockdown_clear event b = false
lock_of status event b = status_lock event b
lock_of _ event b = b

-- Whether the system is locked after an event, for a client that knew whether it was before. A
-- client cannot show a lockdown whose offender is no object, or whose time is no text.
unfoldable pub lock_after : Json → Bool → Bool
unfolding kind_of lookup
lock_after (obj fields) b = lock_of (kind_of (get "type" fields)) fields b
lock_after _ b = b

-- The events one after the other.
unfoldable pub told : Bool → List Json → Bool
unfolding lock_after
told b [] = b
told b (e ∷ es) = told (lock_after e b) es

pub told-append : (b : Bool) (es fs : List Json) → told b (es ++ fs) ≡ told (told b es) fs
unfolding told
told-append b [] fs = refl
told-append b (e ∷ es) fs = told-append (lock_after e b) es fs

-- The events that were broadcast since the history `h` tell what the lockdown is, to a client that
-- knew what it was then.
pub record IsTold (h : List Json) (b : Bool) (d : Daemon) : Type 0 where
  pub since : List Json
  pub grown : d.broadcasts ≡ h ++ since
  pub told_locked : told b since ≡ d.locked

pub now-IsTold : (d : Daemon) → IsTold d.broadcasts d.locked d
unfolding told
now-IsTold d = record { since = []; grown = sym (append-nil d.broadcasts); told_locked = refl }

module _ {h : List Json} {b : Bool} where
  -- Nothing was broadcast, and the lockdown is what it was.
  pub silent :
      (d d' : Daemon)
      → d'.broadcasts ≡ d.broadcasts
      → d'.locked ≡ d.locked
      → IsTold h b d
      → IsTold h b d'
  silent d d' e l s = record {
    since = s.since;
    grown = e ∙ s.grown;
    told_locked = s.told_locked ∙ sym l;
  }

  -- An event was broadcast that tells what the lockdown is.
  pub announced :
      (event : Json) (d d' : Daemon)
      → d'.broadcasts ≡ d.broadcasts ++ event ∷ []
      → lock_after event d.locked ≡ d'.locked
      → IsTold h b d
      → IsTold h b d'
  unfolding told
  announced event d d' e l s = record {
    since = s.since ++ event ∷ [];
    grown =
        e ∙ ap (λ (es : List Json). es ++ event ∷ []) s.grown ∙ append_assoc h s.since (event ∷ []);
    told_locked = told-append b s.since (event ∷ []) ∙ ap (lock_after event) s.told_locked ∙ l;
  }
