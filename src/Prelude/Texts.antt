-- ===== src/Prelude/Texts.antt =====
-- Text as its list of code points, with the parts of Python's `str` that the program uses.
-- Case changes and white space are those of ASCII (white space also U+0085 and U+00A0).
use Prim.Native.Nat.{ℕ, ◌+◌, ◌-◌, ◌*◌}
use Prim.Native.Char.{code}
use Prim.Native.String.{String}
use mathlib.Core.Path.{◌≡◌, refl}
use mathlib.Core.Logic.{◌↔◌}
use mathlib.Core.Bool.{Bool, true, false, ◌&&◌, ◌||◌}
use mathlib.Core.List.{List, [], ◌∷◌, map, reverse}
use mathlib.Core.Option.{Option, none, some}
use native.Mathlib.Omega.{arith}
use usb_defense_system.Prelude.Tests.{leb, ◌==◌, if◌then◌else◌}

abbrev pub Text : Type 0
Text = List ℕ

abbrev pub codes : String → Text
codes String.[] = []
codes (String.◌∷◌ c s) = code c ∷ codes s

unfoldable pub text_eq : Text → Text → Bool
text_eq [] [] = true
text_eq [] (d ∷ t) = false
text_eq (c ∷ s) [] = false
text_eq (c ∷ s) (d ∷ t) = c == d && text_eq s t

pub text_eq_iff : (s t : Text) → (text_eq s t ≡ true) ↔ (s ≡ t)
unfolding text_eq
text_eq_iff [] [] = (λ _. refl, λ _. refl)
text_eq_iff [] (d ∷ t) = ground arith
text_eq_iff (c ∷ s) [] = ground arith
text_eq_iff (c ∷ s) (d ∷ t) = ground (arith, text_eq_iff s t)

pub text_eq_refl : (s : Text) → text_eq s s ≡ true
text_eq_refl s = (text_eq_iff s s).1 refl

unfoldable pub lower_char : ℕ → ℕ
lower_char c = if leb b'A' c && leb c b'Z' then c + 32 else c

unfoldable pub lower : Text → Text
unfolding lower_char
lower s = map lower_char s

unfoldable pub upper_char : ℕ → ℕ
upper_char c = if leb b'a' c && leb c b'z' then c - 32 else c

unfoldable pub upper : Text → Text
unfolding upper_char
upper s = map upper_char s

-- `str.isspace` of one character
unfoldable pub is_space : ℕ → Bool
is_space c = (leb 9 c && leb c 13) || (leb 28 c && leb c 32) || c == 133 || c == 160

-- `s.lstrip()` for the characters that the test accepts
unfoldable pub strip_left : (ℕ → Bool) → Text → Text
strip_left p [] = []
strip_left p (c ∷ s) = let rest = strip_left p s in if p c then rest else c ∷ s

unfoldable pub strip_chars : (ℕ → Bool) → Text → Text
unfolding strip_left
strip_chars p s = reverse (strip_left p (reverse (strip_left p s)))

-- `s.strip()`
unfoldable pub strip : Text → Text
unfolding strip_chars is_space
strip s = strip_chars is_space s

-- The pieces of `s.split(sep)`; `acc` holds the piece that is being read, reversed.
unfoldable pub split_from : ℕ → Text → Text → List Text
split_from sep acc [] = reverse acc ∷ []
split_from sep acc (c ∷ s) =
    let next = reverse acc ∷ split_from sep [] s in
    let more = split_from sep (c ∷ acc) s in if c == sep then next else more

unfoldable pub split : ℕ → Text → List Text
unfolding split_from
split sep s = split_from sep [] s

-- `s.replace(a, b)` for single characters
unfoldable pub replace_char : ℕ → ℕ → Text → Text
replace_char a b s = map (λ c. if c == a then b else c) s

-- `text.splitlines()` of a text with no line end but \n, without the empty piece after the last.
unfoldable pub without_last_empty : List Text → List Text
without_last_empty [] = []
without_last_empty ([] ∷ []) = []
without_last_empty (t ∷ ts) = t ∷ without_last_empty ts

unfoldable pub lines : Text → List Text
unfolding split without_last_empty
lines s = without_last_empty (split 10 s)

unfoldable pub is_digit : ℕ → Bool
is_digit c = leb b'0' c && leb c b'9'

unfoldable pub digits_onto : ℕ → Text → Option ℕ
unfolding is_digit
digits_onto n [] = some n
digits_onto n (c ∷ s) =
    let rest = digits_onto (n * 10 + (c - b'0')) s in if is_digit c then rest else none

-- `int(s)` for a text of decimal digits, with white space around it; `none` is a `ValueError`.
-- Python also takes a sign and underscores, which no input of the program has.
unfoldable pub parse_digits : Text → Option ℕ
unfolding digits_onto
parse_digits [] = none
parse_digits (c ∷ s) = digits_onto 0 (c ∷ s)

unfoldable pub parse_int : Text → Option ℕ
unfolding strip parse_digits
parse_int s = parse_digits (strip s)

-- The words of `s.split()`; `acc` holds the word that is being read, reversed.
unfoldable pub words_from : Text → Text → List Text
words_from [] [] = []
words_from (a ∷ acc) [] = reverse (a ∷ acc) ∷ []
words_from [] (c ∷ s) =
    let skip = words_from [] s in
    let begin = words_from (c ∷ []) s in if is_space c then skip else begin
words_from (a ∷ acc) (c ∷ s) =
    let finish = reverse (a ∷ acc) ∷ words_from [] s in
    let more = words_from (c ∷ a ∷ acc) s in if is_space c then finish else more

unfoldable pub words : Text → List Text
unfolding words_from is_space
words s = words_from [] s

-- `s.index(pattern)`, split there: the text before, and the text after the pattern.
unfoldable pub strip_prefix : Text → Text → Option Text
strip_prefix [] s = some s
strip_prefix (p ∷ ps) [] = none
strip_prefix (p ∷ ps) (c ∷ s) = if c == p then strip_prefix ps s else none

unfoldable pub cut_at : Text → Text → Option (Text × Text)
unfolding strip_prefix
cut_at pattern [] = none
cut_at pattern (c ∷ s) = elim (strip_prefix pattern (c ∷ s)) [
  | some after ↦ some ([], after)
  | none ↦ elim (cut_at pattern s) [ none ↦ none | some (before, after) ↦ some (c ∷ before, after) ]
]

pub lower_char_idem : (c : ℕ) → lower_char (lower_char c) ≡ lower_char c
unfolding lower_char
lower_char_idem c = ground arith

pub lower_idem : (s : Text) → lower (lower s) ≡ lower s
unfolding lower
lower_idem [] = refl
lower_idem (c ∷ s) = unfold lower in cc (lower_char_idem c, lower_idem s)
