-- ===== src/EventLog/Reading.antt =====
-- What the event log reads back after a record was written.
use usb_defense_system.Prelude.{
  ℕ, zero, suc, ◌-◌, ◌≤◌, ◌≡◌, refl, sym, ap, ◌∙◌, String, Bool, false, not, ◌==◌, some, List, [],
  ◌∷◌, ◌++◌, Text, arith, AllTrue, length, length-append, drop, split, split_from, lines,
  without_last_empty,
}
use mathlib.Core.List.{append_assoc, append-nil, reverse, reverse-cons}
use usb_defense_system.Json.{Json, Fields}
use usb_defense_system.Platform.{Platform}
use usb_defense_system.Files.{FileSystem, event_log_path}
use usb_defense_system.EventLog.{log_record, write, parse_rows, read_recent, last_lines}

abbrev is_in_line : ℕ → Bool
is_in_line c = not (c == 10)

-- A text with no line end in it.
abbrev pub IsOneLine : Text → Type 0
IsOneLine t = AllTrue is_in_line t

-- The file that consists of the rows.
abbrev pub unlines : List Text → Text
unlines [] = []
unlines (row ∷ rows) = row ++ (10 ∷ unlines rows)

abbrev pub AreRows : List Text → Type 0
AreRows [] = Unit {0}
AreRows (row ∷ rows) = IsOneLine row × AreRows rows

unlines-append :
    (rows : List Text) (row : Text) → unlines (rows ++ row ∷ []) ≡ unlines rows ++ (row ++ 10 ∷ [])
unlines-append [] row = refl
unlines-append (r ∷ rows) row =
    ap (λ (t : Text). r ++ (10 ∷ t)) (unlines-append rows row)
    ∙ sym (append_assoc r (10 ∷ unlines rows) (row ++ 10 ∷ []))

drop-snoc :
    (k : ℕ) (rows : List Text) (row : Text)
    → k ≤ length rows
    → drop k (rows ++ row ∷ []) ≡ drop k rows ++ row ∷ []
drop-snoc zero rows row h = refl
drop-snoc (suc k) [] row h = absurd (omega arith)
drop-snoc (suc k) (r ∷ rows) row h = drop-snoc k rows row (omega arith)

parse_rows-append :
    (P : Platform) (xs ys : List Text)
    → parse_rows P (xs ++ ys) ≡ parse_rows P xs ++ parse_rows P ys
unfolding parse_rows
parse_rows-append P [] ys = refl
parse_rows-append P (x ∷ xs) ys = ground (arith, parse_rows-append P xs ys)

split_from-row :
    (acc row rest : Text)
    → IsOneLine row
    → split_from 10 acc (row ++ (10 ∷ rest)) ≡ (reverse acc ++ row) ∷ split_from 10 [] rest
unfolding split_from
split_from-row acc [] rest h =
    ap (λ (t : Text). t ∷ split_from 10 [] rest) (sym (append-nil (reverse acc)))
split_from-row acc (c ∷ row) rest (h, hs) =
    let turned : reverse (c ∷ acc) ++ row ≡ reverse acc ++ (c ∷ row) =
      ap (λ (t : Text). t ++ row) (reverse-cons c acc) ∙ append_assoc (reverse acc) (c ∷ []) row in
    ground (
      arith,
      h,
      split_from-row (c ∷ acc) row rest hs,
      ap (λ (t : Text). t ∷ split_from 10 [] rest) turned,
    )

split-unlines : (rows : List Text) → AreRows rows → split 10 (unlines rows) ≡ rows ++ [] ∷ []
unfolding split split_from
split-unlines [] h = refl
split-unlines (row ∷ rows) (h, hs) =
    split_from-row [] row (unlines rows) h
    ∙ ap (λ (ts : List Text). row ∷ ts) (split-unlines rows hs)

without_last_empty-snoc : (rows : List Text) → without_last_empty (rows ++ [] ∷ []) ≡ rows
unfolding without_last_empty
without_last_empty-snoc [] = refl
without_last_empty-snoc ([] ∷ []) = refl
without_last_empty-snoc ([] ∷ r ∷ rows) =
    ap (λ (ts : List Text). [] ∷ ts) (without_last_empty-snoc (r ∷ rows))
without_last_empty-snoc ((c ∷ row) ∷ rows) =
    ap (λ (ts : List Text). (c ∷ row) ∷ ts) (without_last_empty-snoc rows)

-- Reading the lines of a file that consists of rows gives the rows.
lines-unlines : (rows : List Text) → AreRows rows → lines (unlines rows) ≡ rows
unfolding lines
lines-unlines rows h = ap without_last_empty (split-unlines rows h) ∙ without_last_empty-snoc rows

AreRows-append :
    (rows : List Text) (row : Text) → AreRows rows → IsOneLine row → AreRows (rows ++ row ∷ [])
AreRows-append [] row h k = (k, tt)
AreRows-append (r ∷ rows) row (h, hs) k = (h, AreRows-append rows row hs k)

last_lines-snoc :
    (n : ℕ) (rows : List Text) (row : Text)
    → last_lines (suc n) (rows ++ row ∷ []) ≡ drop (length rows - n) rows ++ row ∷ []
last_lines-snoc n rows row =
    let shorter : length (rows ++ row ∷ []) - suc n ≡ length rows - n =
      omega (arith, length-append rows (row ∷ [])) in
    let cut : last_lines (suc n) (rows ++ row ∷ [])
        ≡ drop (length (rows ++ row ∷ []) - suc n) (rows ++ row ∷ []) =
      ground arith in
    cut
    ∙ ap (λ (k : ℕ). drop k (rows ++ row ∷ [])) shorter
    ∙ drop-snoc (length rows - n) rows row (omega arith)

module _ (P : Platform) where
  parse_rows-snoc :
      (rows : List Text) (row : Text) (j : Json)
      → P.loads row ≡ some j
      → parse_rows P (rows ++ row ∷ []) ≡ parse_rows P rows ++ j ∷ []
  unfolding parse_rows
  parse_rows-snoc rows row j h = parse_rows-append P rows (row ∷ []) ∙ rw (h, parse_rows) refl

  -- Where the log is a file of rows that can be written, and the record is encoded as one line that
  -- reads back as the record: after `write`, `read_recent` of `n + 1` rows gives the last `n` rows
  -- from before, as far as they parse, and then the record.
  pub read_recent-write :
      (n : ℕ) (now : Text) (kind : String) (event : Fields) (rows : List Text) (mode : ℕ)
      (fs : FileSystem)
      → fs event_log_path ≡ some (record { content = unlines rows; mode = mode; immutable = false })
      → AreRows rows
      → IsOneLine (P.dumps (log_record now kind event))
      → P.loads (P.dumps (log_record now kind event)) ≡ some (log_record now kind event)
      → read_recent P (suc n) (write P now kind event fs)
        ≡ parse_rows P (drop (length rows - n) rows) ++ log_record now kind event ∷ []
  unfolding read_recent write
  read_recent-write n now kind event rows mode fs e h k codec =
      let row = P.dumps (log_record now kind event) in
      let read : read_recent P (suc n) (write P now kind event fs)
          ≡ parse_rows P (last_lines (suc n) (lines (unlines rows ++ (row ++ 10 ∷ [])))) =
        ground (arith, e) in
      read
      ∙ ap (λ (ts : List Text). parse_rows P (last_lines (suc n) ts))
          (ap lines (sym (unlines-append rows row))
            ∙ lines-unlines (rows ++ row ∷ []) (AreRows-append rows row h k))
      ∙ ap (parse_rows P) (last_lines-snoc n rows row)
      ∙ parse_rows-snoc (drop (length rows - n) rows) row (log_record now kind event) codec
