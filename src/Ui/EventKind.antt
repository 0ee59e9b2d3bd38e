-- ===== src/Ui/EventKind.antt =====
-- The types of the events and replies that the user interface knows.
use usb_defense_system.Prelude.{Text, codes, text_eq, if◌then◌else◌}
use usb_defense_system.Json.{Json, str}

pub data EventKind : Type 0 where
  lockdown_enter lockdown_clear intrusion_attempt status whitelist_list whitelist_changed :
      EventKind
  add_whitelist_entry remove_whitelist_entry unlock_with_password unlock_with_seed : EventKind
  unauthorized_insert authorized_insert unknown : EventKind

unfoldable kind_text : Text → EventKind
unfolding text_eq
kind_text s =
    if text_eq s (codes "lockdown_enter")
    then lockdown_enter
    else if text_eq s (codes "lockdown_clear")
    then lockdown_clear
    else if text_eq s (codes "intrusion_attempt")
    then intrusion_attempt
    else if text_eq s (codes "status")
    then status
    else if text_eq s (codes "whitelist_list")
    then whitelist_list
    else if text_eq s (codes "whitelist_changed")
    then whitelist_changed
    else if text_eq s (codes "add_whitelist_entry")
    then add_whitelist_entry
    else if text_eq s (codes "remove_whitelist_entry")
    then remove_whitelist_entry
    else if text_eq s (codes "unlock_with_password")
    then unlock_with_password
    else if text_eq s (codes "unlock_with_seed")
    then unlock_with_seed
    else if text_eq s (codes "unauthorized_insert")
    then unauthorized_insert
    else if text_eq s (codes "authorized_insert")
    then authorized_insert
    else unknown

-- The comparisons of `event.get("type")`.
unfoldable pub kind_of : Json → EventKind
unfolding kind_text
kind_of (str s) = kind_text s
kind_of _ = unknown
