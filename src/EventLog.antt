-- ===== src/EventLog.antt =====
-- usbguard_defense/event_log.py: one JSON line for each event, appended to a file.
pub mod Reading
use usb_defense_system.Prelude.{
  ℕ, ◌-◌, ◌==◌, String, false, Option, none, some, List, [], ◌∷◌, ◌++◌, if◌then◌else◌, Text, lines,
  length, drop,
}
use usb_defense_system.Json.{Json, obj, str, lit, Fields, field, end, update}
use usb_defense_system.Platform.{Platform}
use usb_defense_system.Files.{File, FileSystem, event_log_path, set_file}

-- `{"ts": ..., "type": ..., **event}`: a key of the event replaces the one above it.
unfoldable pub log_record : Text → String → Fields → Json
unfolding update
log_record now kind event = obj (update (field "ts" (str now) (field "type" (lit kind) end)) event)

-- `lines[-limit:]`, which is the whole list where the limit is 0
abbrev pub last_lines : ℕ → List Text → List Text
last_lines limit rows = if limit == 0 then rows else drop (length rows - limit) rows

module _ (P : Platform) where
  abbrev append_line : Text → Option File → FileSystem → FileSystem
  append_line line none fs =
      set_file event_log_path
        (some (record { content = line; mode = P.new_mode; immutable = false })) fs
  append_line line (some f) fs =
      if f.immutable
      then fs
      else set_file event_log_path (some (record f { content = f.content ++ line })) fs

  -- `write`; an `OSError` is logged and dropped.
  unfoldable pub write : Text → String → Fields → FileSystem → FileSystem
  write now kind event fs =
      append_line (P.dumps (log_record now kind event) ++ 10 ∷ []) (fs event_log_path) fs

  -- The rows that parse; a row that does not is skipped.
  unfoldable pub parse_rows : List Text → List Json
  parse_rows [] = []
  parse_rows (line ∷ rest) =
      let more = parse_rows rest in elim (P.loads line) [ none ↦ more | some j ↦ j ∷ more ]

  abbrev recent_rows : ℕ → Option File → List Json
  recent_rows limit none = []
  recent_rows limit (some f) = parse_rows (last_lines limit (lines f.content))

  unfoldable pub read_recent : ℕ → FileSystem → List Json
  unfolding parse_rows
  read_recent limit fs = recent_rows limit (fs event_log_path)
