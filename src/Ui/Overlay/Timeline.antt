-- ===== src/Ui/Overlay/Timeline.antt =====
-- The rows of the timeline, over the attempts that are recorded.
use usb_defense_system.Prelude.{
  ◌+◌, ℕ, zero, suc, ◌-◌, ◌≤◌, ◌≡◌, refl, sym, ap, ◌∙◌, List, [], ◌∷◌, ◌++◌, Text, arith, length,
  drop, length-append, length-drop,
}
use mathlib.Core.List.{append_assoc, append-nil}
use usb_defense_system.Json.{Json}
use usb_defense_system.Exec.{Result, ok, err, continue}
use usb_defense_system.Platform.{Platform}
use usb_defense_system.Ui.Display.{Desktop}
use usb_defense_system.Ui.Overlay.{
  Overlay, max_timeline_rows, trim, add_row, timeline_row, record_intrusion,
}

-- The last rows, as many as the timeline may hold.
abbrev pub newest : List Text → List Text
newest rows = drop (length rows - max_timeline_rows) rows

newest_short : (rows : List Text) → length rows ≤ max_timeline_rows → newest rows ≡ rows
newest_short rows h =
    let e : length rows - max_timeline_rows ≡ 0 = omega arith in ap (λ (n : ℕ). drop n rows) e

newest_long :
    (row : Text) (rows : List Text)
    → max_timeline_rows ≤ length rows
    → newest (row ∷ rows) ≡ newest rows
newest_long row rows h =
    let e : suc (length rows) - max_timeline_rows ≡ suc (length rows - max_timeline_rows) =
      omega arith in
    ap (λ (n : ℕ). drop n (row ∷ rows)) e

-- With as much fuel as there are rows, the loop that trims the timeline ends where its condition
-- fails, with the newest rows.
trim-newest : (fuel : ℕ) (rows : List Text) → length rows ≤ fuel → trim fuel rows ≡ newest rows
unfolding trim
trim-newest zero [] h = refl
trim-newest zero (row ∷ rows) h = absurd (omega arith)
trim-newest (suc fuel) [] h = ground arith
trim-newest (suc fuel) (row ∷ rows) h =
    ground (arith, h, trim-newest fuel rows, newest_short (row ∷ rows), newest_long row rows)

drop-append : (n : ℕ) (xs ys : List Text) → n ≤ length xs → drop n (xs ++ ys) ≡ drop n xs ++ ys
drop-append zero xs ys h = refl
drop-append (suc n) [] ys h = absurd (omega arith)
drop-append (suc n) (x ∷ xs) ys h = drop-append n xs ys (omega arith)

drop-drop : (m n : ℕ) (xs : List Text) → drop m (drop n xs) ≡ drop (n + m) xs
drop-drop m zero xs = let e : m ≡ 0 + m = omega arith in ap (λ (k : ℕ). drop k xs) e
drop-drop zero (suc n) [] = let e : suc n + 0 ≡ suc n = omega arith in rw e refl
drop-drop (suc m) (suc n) [] = let e : suc n + suc m ≡ suc (n + suc m) = omega arith in rw e refl
drop-drop m (suc n) (x ∷ xs) =
    let e : suc n + m ≡ suc (n + m) = omega arith in rw e (drop-drop m n xs)

-- Trimming what was trimmed before a row came is trimming all.
newest-snoc :
    (rows : List Text) (row : Text) → newest (newest rows ++ row ∷ []) ≡ newest (rows ++ row ∷ [])
newest-snoc rows row =
    let n = length rows - max_timeline_rows in
    let k = length (newest rows ++ row ∷ []) - max_timeline_rows in
    let whole = rows ++ row ∷ [] in
    let e : n + k ≡ length whole - max_timeline_rows = omega (
      arith,
      length-append (newest rows) (row ∷ []),
      length-append rows (row ∷ []),
      length-drop n rows,
    ) in
    ap (drop k) (sym (drop-append n rows (row ∷ []) (omega arith)))
    ∙ drop-drop k n whole
    ∙ ap (λ (m : ℕ). drop m whole) e

-- An attempt, as the daemon reports it.
pub record Attempt : Type 0 where
  pub kind : Json
  pub detail : Json
  pub ts : Json

module _ (P : Platform) (D : Desktop) where
  abbrev pub record_all : List Attempt → Overlay → Overlay
  record_all [] o = o
  record_all (a ∷ more) o = record_all more (record_intrusion P D a.kind a.detail a.ts o).1

  abbrev pub row_or_none : Result Text → List Text
  row_or_none (ok row) = row ∷ []
  row_or_none (err e) = []

  -- The rows of the attempts that can be shown.
  abbrev pub rows_of : List Attempt → List Text
  rows_of [] = []
  rows_of (a ∷ more) = row_or_none (timeline_row P D a.kind a.detail a.ts) ++ rows_of more

  recorded :
      (a : Attempt) (rows : List Text) (o : Overlay)
      → o.timeline ≡ newest rows
      → (record_intrusion P D a.kind a.detail a.ts o).1.timeline
        ≡ newest (rows ++ row_or_none (timeline_row P D a.kind a.detail a.ts))
  unfolding record_intrusion
  recorded a rows o h = extended (timeline_row P D a.kind a.detail a.ts)
    where
      extended :
          (r : Result Text)
          → (continue r (λ row o'. (ok tt, add_row P D row o')) o).1.timeline
            ≡ newest (rows ++ row_or_none r)
      extended (ok row) =
          trim-newest (length (o.timeline ++ row ∷ [])) (o.timeline ++ row ∷ []) (omega arith)
          ∙ ap (λ (held : List Text). newest (held ++ row ∷ [])) h
          ∙ newest-snoc rows row
      extended (err e) = h ∙ ap newest (sym (append-nil rows))

  record_all-rows :
      (more : List Attempt) (rows : List Text) (o : Overlay)
      → o.timeline ≡ newest rows
      → (record_all more o).timeline ≡ newest (rows ++ rows_of more)
  record_all-rows [] rows o h = h ∙ ap newest (sym (append-nil rows))
  record_all-rows (a ∷ more) rows o h =
      let row = row_or_none (timeline_row P D a.kind a.detail a.ts) in
      record_all-rows more (rows ++ row) (record_intrusion P D a.kind a.detail a.ts o).1
        (recorded a rows o h)
      ∙ ap newest (append_assoc rows row (rows_of more))

  -- Where the timeline holds the newest of some rows, after any sequence of attempts the loop that
  -- trims it has ended with at most 200 rows, and the timeline holds the newest of these rows followed
  -- by those of the attempts, in their order. An attempt whose kind is no text, or whose time is a
  -- value other than a text that counts as true, raises and adds no row.
  pub record_all-newest :
      (more : List Attempt) (rows : List Text) (o : Overlay)
      → o.timeline ≡ newest rows
      → let o' = record_all more o in
        (o'.timeline ≡ newest (rows ++ rows_of more)) × (length o'.timeline ≤ 200)
  record_all-newest more rows o h =
      let all = rows ++ rows_of more in
      let e = record_all-rows more rows o h in
      let l : length (newest all) ≤ 200 =
        omega (arith, length-drop (length all - max_timeline_rows) all) in
      (e, rw e l)
