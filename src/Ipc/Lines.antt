-- ===== src/Ipc/Lines.antt =====
-- The loop that cuts the lines off a buffer, which both ends of the socket run.
use usb_defense_system.Prelude.{
  ℕ, zero, suc, ◌≤◌, ◌≡◌, refl, Option-cases, inl, inr, Option, none, some, List, [], ◌∷◌, Text,
  arith, length,
}
use usb_defense_system.Ipc.{split_line, cut_while, cut_lines}

abbrev cut_once : Option (Text × Text) → Text → List Text × Text
cut_once none buf = ([], buf)
cut_once (some (line, rest)) buf = (line ∷ (cut_lines rest).0, (cut_lines rest).1)

-- Cutting all lines is cutting one, and then all of the rest.
cut_lines-split : (buf : Text) → cut_lines buf ≡ cut_once (split_line buf) buf
unfolding cut_lines split_line
cut_lines-split [] = refl
cut_lines-split (c ∷ s) = ground (arith, cut_lines-split s)

-- A line takes its end with it.
split_line-shorter :
    (buf line rest : Text) → split_line buf ≡ some (line, rest) → suc (length rest) ≤ length buf
unfolding split_line
split_line-shorter [] line rest h = cc
split_line-shorter (c ∷ s) line rest h = elim (Option-cases (split_line s)) [
  | inl none_left ↦ ground (arith, h, none_left)
  | inr ((l, more), found) ↦ ground (arith, h, found, split_line-shorter s l more found)
]

cut_nothing : (([], []) ≡ cut_lines []) × (split_line [] ≡ none)
unfolding cut_lines split_line
cut_nothing = (refl, refl)

-- With as much fuel as the buffer has bytes, the loop has ended where its condition fails: what is
-- left in the buffer has no line end, and the lines and what is left are those that `cut_lines` gives.
pub cut_while-eq :
    (fuel : ℕ) (buf : Text)
    → length buf ≤ fuel
    → (cut_while fuel buf ≡ cut_lines buf) × (split_line (cut_while fuel buf).1 ≡ none)
unfolding cut_while
cut_while-eq zero [] h = cut_nothing
cut_while-eq zero (c ∷ s) h = absurd (omega arith)
cut_while-eq (suc fuel) buf h = elim (Option-cases (split_line buf)) [
  | inl none_left ↦ ground (arith, none_left, cut_lines-split buf)
  | inr ((l, more), found) ↦
      let (e, left) =
        cut_while-eq fuel more (omega (arith, h, split_line-shorter buf l more found)) in
      ground (arith, found, cut_lines-split buf, e, left)
]
