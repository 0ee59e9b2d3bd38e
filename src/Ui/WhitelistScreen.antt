-- ===== src/Ui/WhitelistScreen.antt =====
-- usbguard_defense/ui/whitelist_mgr.py: the list of the whitelist, and the dialogs by which the user
-- changes it.
use usb_defense_system.Prelude.{
  Bool, String, Option, none, some, List, [], ◌∷◌, ◌++◌, if◌then◌else◌, Text, codes, strip, lower,
  text_eq,
}
use usb_defense_system.Json.{
  Json, Items, null, bool, str, arr, obj, nil, cons, Fields, field, end, lookup, truthy,
}
use usb_defense_system.Exec.{Result, ok, err, Exec, attribute_error, type_error, key_error, then_do}
use usb_defense_system.Platform.{Platform}
use usb_defense_system.Ui.Display.{shown, json_get}
use usb_defense_system.Ui.Overlay.{Answer, is_given}

-- A row of the list: its text, and the identifier behind it.
pub record Row : Type 0 where
  pub text : Text
  pub id : Json

-- `statuses` are the message boxes that were shown: the message, and whether it is an error.
pub record WhitelistScreen : Type 0 where
  pub rows : List Row
  pub statuses : List (Text × Bool)

abbrev found : Option Json → Result Json
found none = err key_error
found (some v) = ok v

-- `entry[key]`
abbrev item : String → Json → Result Json
item key (obj fs) = found (lookup key fs)
item key _ = err type_error

module _ (P : Platform) where
  -- The row of one entry.
  unfoldable pub row_of : Json → Result Row
  row_of entry = then_do (json_get "can_unlock" null entry) λ can_unlock.
      then_do (item "label" entry) λ label. then_do (item "vendor_id" entry) λ vendor_id.
        then_do (item "product_id" entry) λ product_id. then_do (item "serial" entry) λ serial.
          then_do (item "device_class" entry) λ device_class.
            then_do (item "added_by" entry) λ added_by. then_do (item "added_at" entry) λ added_at.
              then_do (item "id" entry) λ id. ok (record {
                id = id;
                text =
                    shown P label
                    ++ ((if truthy can_unlock then codes " [UNLOCK KEY]" else [])
                        ++ (codes "\n  VID:PID = "
                            ++ (shown P vendor_id
                                ++ (codes ":"
                                    ++ (shown P product_id
                                        ++ (codes "    Serial = "
                                            ++ (shown P serial
                                                ++ (codes "    Class = "
                                                    ++ (shown P device_class
                                                        ++ (codes "\n  Added by "
                                                            ++ (shown P added_by
                                                            ++ (codes " at "
                                                            ++ shown P added_at))))))))))));
              })

  -- The rows that the loop adds before it ends or an entry raises.
  unfoldable pub add_rows : Items → Exec WhitelistScreen (Unit {0})
  unfolding row_of
  add_rows nil s = (ok tt, s)
  add_rows (cons entry rest) s = elim (row_of entry) [
    | ok row ↦ add_rows rest (record s { rows = s.rows ++ row ∷ [] })
    | err e ↦ (err e, s)
  ]

  -- The loop over what the daemon sent. A text and an object that are not empty give texts, on which
  -- `get` raises; a number is no sequence.
  abbrev add_entries : Json → Exec WhitelistScreen (Unit {0})
  add_entries (arr entries) s = add_rows entries s
  add_entries (str []) s = (ok tt, s)
  add_entries (str (c ∷ t)) s = (err attribute_error, s)
  add_entries (obj end) s = (ok tt, s)
  add_entries (obj (field k v fs)) s = (err attribute_error, s)
  add_entries _ s = (err type_error, s)

  -- `refresh`, with what `_get_entries` returns
  unfoldable pub refresh : Json → Exec WhitelistScreen (Unit {0})
  unfolding add_rows
  refresh entries s = add_entries entries (record s { rows = [] })

unfoldable pub show_status : Text → Bool → WhitelistScreen → WhitelistScreen
show_status message error s = record s { statuses = s.statuses ++ (message, error) ∷ [] }

-- `_prompt_password`
unfoldable pub prompt_password : Answer → Option Text
prompt_password a = if is_given a then some a.text else none

-- The inputs of `AddDeviceDialog`.
pub record Form : Type 0 where
  pub label_input : Text
  pub vid_input : Text
  pub pid_input : Text
  pub serial_input : Text
  pub class_input : Text
  pub unlock_check : Bool

abbrev pub text_or : Text → Text → Text
text_or s default = if text_eq s [] then default else s

-- `values`
unfoldable pub values : Form → Fields
values f = field "label" (str (text_or (strip f.label_input) (codes "Unlabeled"))) (
    field "vendor_id" (str (lower (strip f.vid_input))) (
      field "product_id" (str (lower (strip f.pid_input))) (
        field "serial" (str (strip f.serial_input)) (
          field "device_class" (str (text_or (strip f.class_input) (codes "Unknown")))
            (field "can_unlock" (bool f.unlock_check) end)))))

abbrev with_password : Fields → Option Text → Option (Fields × Text)
with_password entry none = none
with_password entry (some pw) = some (entry, pw)

-- `_on_add`: what it submits, if anything. The form is missing where the dialog was not accepted.
unfoldable pub on_add : Option Form → Answer → Option (Fields × Text)
unfolding values prompt_password
on_add none a = none
on_add (some form) a = with_password (values form) (prompt_password a)

abbrev id_with_password : Json → Option Text → Option (Json × Text)
id_with_password id none = none
id_with_password id (some pw) = some (id, pw)

-- `_on_remove`: what it submits, if anything. The row is missing where none is selected.
unfoldable pub on_remove : Option Row → Bool → Answer → Option (Json × Text)
unfolding prompt_password
on_remove none confirmed a = none
on_remove (some row) confirmed a =
    if confirmed then id_with_password row.id (prompt_password a) else none
