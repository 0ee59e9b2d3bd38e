-- ===== src/Ui/Overlay.antt =====
-- usbguard_defense/ui/lockdown.py: the overlay that covers the screen during a lockdown.
pub mod Timeline
pub mod Visibility
use usb_defense_system.Prelude.{
  ℕ, zero, suc, Bool, true, false, not, ◌&&◌, String, Option, none, some, List, [], ◌∷◌, ◌++◌,
  if◌then◌else◌, ltb, Text, codes, text_eq, length,
}
use usb_defense_system.Json.{Json, str, truthy}
use usb_defense_system.Exec.{
  Result, ok, err, Exec, lift, modify, attribute_error, then_do, ◌>>=◌, ◌>>◌,
}
use usb_defense_system.Platform.{Platform}
use usb_defense_system.Ui.Display.{
  Desktop, json_get, shown, iso_to_local_hms, iso_to_local_full, title_of,
}

-- `grabs` says that the overlay holds the keyboard, `blinking` that its timer runs, and `title_shown`
-- what the timer last did to the title.
pub record Overlay : Type 0 where
  pub visible : Bool
  pub grabs : Bool
  pub blinking : Bool
  pub title_shown : Bool
  pub device_label : Text
  pub started_label : Text
  pub error_label : Text
  pub error_shown : Bool
  pub timeline : List Text
  pub timeline_empty_shown : Bool

-- The overlay after `__init__`.
abbrev pub new_overlay : Overlay
new_overlay = record {
  visible = false;
  grabs = false;
  blinking = true;
  title_shown = true;
  device_label = [];
  started_label = [];
  error_label = [];
  error_shown = false;
  timeline = [];
  timeline_empty_shown = true;
}

abbrev pub max_timeline_rows : ℕ
max_timeline_rows = 200

-- The lookup in `_KIND_LABELS`.
unfoldable pub label_of : Text → Text
unfolding title_of
label_of kind =
    if text_eq kind (codes "WRONG_PASSWORD")
    then codes "Wrong admin password"
    else if text_eq kind (codes "WRONG_RECOVERY_CODE")
    then codes "Wrong recovery code"
    else if text_eq kind (codes "USB_RETRY")
    then codes "Unauthorized USB re-insert"
    else if text_eq kind (codes "TTY_SWITCH")
    then codes "Console (TTY) switch attempt"
    else title_of kind

-- `self.timeline_list.takeItem(0)`
abbrev take_first : List Text → List Text
take_first [] = []
take_first (row ∷ rows) = rows

-- `while self.timeline_list.count() > _MAX_TIMELINE_ROWS: self.timeline_list.takeItem(0)`
unfoldable pub trim : ℕ → List Text → List Text
trim zero rows = rows
trim (suc fuel) rows =
    let rest = trim fuel (take_first rows) in
    if ltb max_timeline_rows (length rows) then rest else rows

-- `kind.replace` raises on a value that is no text.
abbrev kind_label : Json → Result Text
kind_label (str kind) = ok (label_of kind)
kind_label _ = err attribute_error

module _ (P : Platform) (D : Desktop) where
  -- The text of the row that `record_intrusion` adds.
  unfoldable pub timeline_row : Json → Json → Json → Result Text
  unfolding iso_to_local_hms label_of
  timeline_row kind detail iso_ts = then_do (iso_to_local_hms P D iso_ts) λ local.
      then_do (kind_label kind) λ label.
        ok (codes "[" ++ (local ++ (codes "]  " ++ (label ++ (codes " — " ++ shown P detail)))))

  abbrev pub add_row : Text → Overlay → Overlay
  add_row row o =
      let rows = o.timeline ++ row ∷ [] in
      record o { timeline = trim (length rows) rows; timeline_empty_shown = false }

  -- `record_intrusion`
  unfoldable pub record_intrusion : Json → Json → Json → Exec Overlay (Unit {0})
  unfolding timeline_row trim
  record_intrusion kind detail iso_ts = do
    row ← lift (timeline_row kind detail iso_ts)
    modify (add_row row)

  abbrev device_text : Json → Result Text
  device_text offender =
      then_do (json_get "manufacturer" (str (codes "?")) offender) λ manufacturer.
        then_do (json_get "product" (str (codes "?")) offender) λ product.
          then_do (json_get "vendor_id" (str (codes "?")) offender) λ vendor_id.
            then_do (json_get "product_id" (str (codes "?")) offender) λ product_id.
              then_do (json_get "serial" (str (codes "?")) offender) λ serial.
                then_do (json_get "device_class" (str (codes "?")) offender) λ device_class.
                  then_do (json_get "usb_version" (str (codes "?")) offender) λ usb_version. ok (
                    shown P manufacturer
                    ++ (codes " "
                        ++ (shown P product
                            ++ (codes "\nVID:PID = "
                                ++ (shown P vendor_id
                                    ++ (codes ":"
                                        ++ (shown P product_id
                                            ++ (codes "    Serial = "
                                                ++ (shown P serial
                                                    ++ (codes "\nClass = "
                                                        ++ (shown P device_class
                                                            ++ (codes "    USB = "
                                                            ++ shown P usb_version))))))))))))

  -- `_format_started_at`
  unfoldable pub format_started_at : Json → Result Text
  unfolding iso_to_local_full
  format_started_at started_at =
      if truthy started_at
      then then_do (iso_to_local_full D started_at)
          (λ local. ok (if text_eq local [] then [] else codes "Locked since " ++ local))
      else ok []

  -- `show_for`
  unfoldable pub show_for : Json → Json → Exec Overlay (Unit {0})
  unfolding format_started_at
  show_for offender started_at = do
    desc ← lift (device_text offender)
    modify (λ o. record o { device_label = desc; error_shown = false })
    started ← lift (format_started_at started_at)
    modify (λ o. record o {
      started_label = started;
      timeline = [];
      timeline_empty_shown = true;
      visible = true;
      blinking = true;
      grabs = true;
    })

unfoldable pub hide_overlay : Overlay → Overlay
hide_overlay o = record o { grabs = false; blinking = false; visible = false }

unfoldable pub show_unlock_error : Text → Overlay → Overlay
show_unlock_error message o = record o { error_label = message; error_shown = true }

-- `_blink`
unfoldable pub blink : Overlay → Overlay
blink o = record o { title_shown = not o.title_shown }

-- What `QInputDialog.getText` returns: the text, and whether the user confirmed it.
pub record Answer : Type 0 where
  pub text : Text
  pub confirmed : Bool

abbrev pub is_given : Answer → Bool
is_given a = a.confirmed && not (text_eq a.text [])

-- `_on_password_clicked` and `_on_seed_clicked`: what they emit, if anything. The keyboard is
-- released for the dialog, and grabbed again after it.
unfoldable pub on_unlock_clicked : Answer → Overlay → Option Text × Overlay
on_unlock_clicked a o =
    if is_given a
    then (some a.text, record o { grabs = true; error_shown = false })
    else (none, record o { grabs = true })
