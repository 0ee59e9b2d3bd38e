-- ===== src/Ui/LogScreen.antt =====
-- usbguard_defense/ui/event_log.py: the table of the event log.
use usb_defense_system.Prelude.{
  ℕ, zero, suc, Bool, true, false, String, Option, none, some, List, [], ◌∷◌, ◌++◌, if◌then◌else◌,
  Text, codes, strip, length, map, text_eq,
}
use usb_defense_system.Json.{Json, str, truthy, Fields, lit}
use usb_defense_system.Exec.{Result, ok, err, Exec, then_do}
use usb_defense_system.Platform.{Platform}
use usb_defense_system.Daemon.Commands.{get_or, as_object}
use usb_defense_system.Ui.Display.{Desktop, shown, format_local_time}

-- `etype == text`
abbrev pub is_text : String → Json → Bool
is_text text (str s) = text_eq s (codes text)
is_text text _ = false

module _ (P : Platform) (D : Desktop) where
  abbrev text_of : String → String → Fields → Text
  text_of key default ev = shown P (get_or key (lit default) ev)

  abbrev intrusion_text : Json → Fields → Text
  intrusion_text kind ev =
      if truthy kind
      then shown P kind ++ (codes ": " ++ text_of "detail" "" ev)
      else text_of "detail" "" ev

  -- `_detail_text`, as the cell shows it
  unfoldable pub detail_text : Fields → Text
  detail_text ev =
      let etype = get_or "type" (lit "") ev in
      if is_text "INTRUSION_ATTEMPT" etype
      then intrusion_text (get_or "kind" (lit "") ev) ev
      else if is_text "UNLOCK_AUTH_FAILURE" etype
      then codes "method=" ++ text_of "method" "?" ev
      else if is_text "UNLOCK_SUCCESS" etype
      then codes "method=" ++ text_of "method" "?" ev
      else if is_text "WHITELIST_ADD" etype
      then codes "label=" ++ text_of "label" "" ev
      else if is_text "WHITELIST_REMOVE" etype
      then codes "entry_id=" ++ text_of "entry_id" "" ev
      else if is_text "WHITELIST_TAMPER" etype
      then codes "detected_at=" ++ text_of "detected_at" "" ev
      else if is_text "AUTH_FAILURE" etype
      then codes "op=" ++ text_of "op" "" ev
      else []

  abbrev cells_of : Fields → Json → List Text
  cells_of ev time =
      shown P time
      ∷ text_of "type" "" ev
      ∷ strip (text_of "manufacturer" "" ev ++ (codes " " ++ text_of "product" "" ev))
      ∷ (text_of "vendor_id" "" ev ++ (codes ":" ++ text_of "product_id" "" ev))
      ∷ text_of "serial" "" ev
      ∷ text_of "device_class" "" ev
      ∷ detail_text ev
      ∷ text_of "fingerprint" "" ev
      ∷ []

  -- The cells of one row; they are all computed before the first is set.
  unfoldable pub cells : Json → Result (List Text)
  unfolding detail_text format_local_time
  cells row =
      then_do (as_object row)
        λ ev. then_do (format_local_time D (get_or "ts" (lit "") ev)) λ time. ok (cells_of ev time)

  -- The loop over the events; an event that raises ends it, and leaves the rows below as they were.
  unfoldable pub fill : List Json → List (List Text) → Result (Unit {0}) × List (List Text)
  unfolding cells
  fill [] olds = (ok tt, olds)
  fill (ev ∷ evs) [] = (ok tt, [])
  fill (ev ∷ evs) (old ∷ olds) =
      let (r, rows) = fill evs olds in
      elim (cells ev) [ ok row ↦ (r, row ∷ rows) | err e ↦ (err e, old ∷ olds) ]

  -- `setRowCount(n)`: rows are cut off, or empty ones added.
  abbrev set_row_count : ℕ → List (List Text) → List (List Text)
  set_row_count zero rows = []
  set_row_count (suc n) [] = [] ∷ set_row_count n []
  set_row_count (suc n) (row ∷ rows) = row ∷ set_row_count n rows

  -- `refresh`, with what `_get_events` returns
  unfoldable pub refresh : List Json → Exec (List (List Text)) (Unit {0})
  unfolding fill
  refresh events table = fill events (set_row_count (length events) table)

abbrev headers : List Text
headers =
    codes "Time (local)"
    ∷ codes "Type"
    ∷ codes "Device"
    ∷ codes "VID:PID"
    ∷ codes "Serial"
    ∷ codes "Class"
    ∷ codes "Detail"
    ∷ codes "Fingerprint"
    ∷ []

-- `_export_csv`: the rows that it writes, if the user chose a path. A row that was never filled has
-- no cells, and is written as empty ones.
abbrev blank_or : List Text → List Text
blank_or [] = map (λ (h : Text). []) headers
blank_or (c ∷ cs) = c ∷ cs

unfoldable pub export_csv : Bool → List (List Text) → Option (List (List Text))
export_csv false table = none
export_csv true table = some (headers ∷ map blank_or table)
