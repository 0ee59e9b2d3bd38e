-- ===== src/Recovery/Code.antt =====
-- What `_normalize` makes of a code that a person types.
use usb_defense_system.Prelude.{
  ℕ, ◌+◌, ◌≡◌, refl, Bool, true, false, [], ◌∷◌, ◌++◌, leb, ◌==◌, ◌&&◌, ◌||◌, if◌then◌else◌, Text,
  is_space, upper, upper_char, lower, lower_char, replace_char, keep, keep-append, length-drop,
  take-append-drop, take_of_length_le, sym, take, drop, map, arith, length, AllTrue, ap, zero, suc,
}
use mathlib.Core.Path.{fun_ext, ◌∙◌}
use usb_defense_system.Recovery.{normalize, display, is_significant, code_chars}

-- The four replacements on one character, one after the other.
abbrev replaced : ℕ → ℕ → ℕ → ℕ
replaced a b c = if c == a then b else c

replace_all : ℕ → ℕ
replace_all c = replaced b'U' b'V' (replaced b'L' b'1' (replaced b'I' b'1' (replaced b'O' b'0' c)))

-- They act on different characters, so they are one choice.
fix_char : ℕ → ℕ
fix_char c =
    if c == b'O'
    then b'0'
    else if c == b'I' || c == b'L'
    then b'1'
    else if c == b'U'
    then b'V'
    else c

replace_all-eq-fix_char : (c : ℕ) → replace_all c ≡ fix_char c
unfolding replace_all fix_char
replace_all-eq-fix_char c = ground arith

normalize_char : ℕ → ℕ
normalize_char c = fix_char (upper_char c)

normalize-eq-replace_all :
    (s : Text) → normalize s ≡ map (λ c. replace_all (upper_char c)) (keep is_significant s)
unfolding normalize replace_all upper
normalize-eq-replace_all s = go (keep is_significant s)
  where
    go :
        (t : Text)
        → replace_char b'U' b'V'
            (replace_char b'L' b'1' (replace_char b'I' b'1' (replace_char b'O' b'0' (upper t))))
          ≡ map (λ c. replace_all (upper_char c)) t
    go [] = refl
    go (c ∷ t) = ap (λ (r : Text). replace_all (upper_char c) ∷ r) (go t)

normalize-eq-map : (s : Text) → normalize s ≡ map normalize_char (keep is_significant s)
unfolding normalize_char
normalize-eq-map s =
    normalize-eq-replace_all s
    ∙ ap (λ (f : ℕ → ℕ). map f (keep is_significant s))
        (fun_ext (λ c. replace_all-eq-fix_char (upper_char c)))

-- A Crockford digit or letter.
abbrev pub is_crockford : ℕ → Bool
is_crockford c =
    (leb b'0' c && leb c b'9')
    || (leb b'A' c && leb c b'H')
    || (leb b'J' c && leb c b'K')
    || (leb b'M' c && leb c b'N')
    || (leb b'P' c && leb c b'T')
    || (leb b'V' c && leb c b'Z')

upper_char-not_lower : (c : ℕ) → (leb b'a' (upper_char c) && leb (upper_char c) b'z') ≡ false
unfolding upper_char
upper_char-not_lower c = ground arith

upper_char-crockford : (c : ℕ) → is_crockford c ≡ true → upper_char c ≡ c
unfolding upper_char
upper_char-crockford c h = ground arith

fix_char-crockford : (c : ℕ) → is_crockford c ≡ true → fix_char c ≡ c
unfolding fix_char
fix_char-crockford c h = ground arith

normalize_char-crockford : (c : ℕ) → is_crockford c ≡ true → normalize_char c ≡ c
unfolding normalize_char
normalize_char-crockford c h = ap fix_char (upper_char-crockford c h) ∙ fix_char-crockford c h

fix_char_idem : (c : ℕ) → fix_char (fix_char c) ≡ fix_char c
unfolding fix_char
fix_char_idem c = ground arith

upper_char-fix_char :
    (c : ℕ) → (leb b'a' c && leb c b'z') ≡ false → upper_char (fix_char c) ≡ fix_char c
unfolding fix_char upper_char
upper_char-fix_char c h = ground arith

normalize_char_idem : (c : ℕ) → normalize_char (normalize_char c) ≡ normalize_char c
unfolding normalize_char
normalize_char_idem c =
    ap fix_char (upper_char-fix_char (upper_char c) (upper_char-not_lower c))
    ∙ fix_char_idem (upper_char c)

upper_char-lower_char : (c : ℕ) → upper_char (lower_char c) ≡ upper_char c
unfolding upper_char lower_char
upper_char-lower_char c = ground arith

significant-upper_char : (c : ℕ) → is_significant (upper_char c) ≡ is_significant c
unfolding upper_char is_space
significant-upper_char c = ground arith

significant-fix_char : (c : ℕ) → is_significant (fix_char c) ≡ is_significant c
unfolding fix_char is_space
significant-fix_char c = ground arith

significant-lower_char : (c : ℕ) → is_significant (lower_char c) ≡ is_significant c
unfolding lower_char is_space
significant-lower_char c = ground arith

significant-crockford : (c : ℕ) → is_crockford c ≡ true → is_significant c ≡ true
unfolding is_space
significant-crockford c h = ground arith

significant-normalize_char : (c : ℕ) → is_significant (normalize_char c) ≡ is_significant c
unfolding normalize_char
significant-normalize_char c = significant-fix_char (upper_char c) ∙ significant-upper_char c

keep-map_normalize :
    (s : Text)
    → keep is_significant (map normalize_char (keep is_significant s))
      ≡ map normalize_char (keep is_significant s)
keep-map_normalize [] = refl
keep-map_normalize (c ∷ s) = ground (arith, significant-normalize_char c, keep-map_normalize s)

map-normalize_char_idem :
    (s : Text) → map normalize_char (map normalize_char s) ≡ map normalize_char s
map-normalize_char_idem [] = refl
map-normalize_char_idem (c ∷ s) = cc (normalize_char_idem c, map-normalize_char_idem s)

-- Normalising a code that is normalised changes nothing.
pub normalize_idem : (code : Text) → normalize (normalize code) ≡ normalize code
normalize_idem code =
    rw (normalize-eq-map (normalize code), normalize-eq-map code, keep-map_normalize code)
      (map-normalize_char_idem (keep is_significant code))

map-normalize_char-crockford : (s : Text) → AllTrue is_crockford s → map normalize_char s ≡ s
map-normalize_char-crockford [] _ = refl
map-normalize_char-crockford (c ∷ s) (h, hs) =
    cc (normalize_char-crockford c h, map-normalize_char-crockford s hs)

keep-crockford : (s : Text) → AllTrue is_crockford s → keep is_significant s ≡ s
keep-crockford [] _ = refl
keep-crockford (c ∷ s) (h, hs) = ground (arith, significant-crockford c h, keep-crockford s hs)

drop-nil : (k : ℕ) → drop {A = ℕ} k [] ≡ []
drop-nil zero = refl
drop-nil (suc k) = refl

drop-drop : (n k m : ℕ) (xs : Text) → m ≡ n + k → drop k (drop n xs) ≡ drop m xs
drop-drop zero k m xs e = ap (λ (j : ℕ). drop j xs) (omega arith)
drop-drop (suc n) k m [] e = drop-nil k ∙ sym (drop-nil m)
drop-drop (suc n) k zero (x ∷ xs) e = absurd (omega arith)
drop-drop (suc n) k (suc m) (x ∷ xs) e = drop-drop n k m xs (omega arith)

-- A code of 16 characters is its four groups.
concat_groups :
    (raw : Text)
    → length raw ≡ code_chars
    → take 4 raw ++ (take 4 (drop 4 raw) ++ (take 4 (drop 8 raw) ++ take 4 (drop 12 raw))) ≡ raw
concat_groups raw h = rw (take_of_length_le 4 (drop 12 raw) (omega (arith, length-drop 12 raw))) (
    rw (← drop-drop 8 4 12 raw refl, take-append-drop 4 (drop 8 raw))
      (rw (← drop-drop 4 4 8 raw refl, take-append-drop 4 (drop 4 raw)) (take-append-drop 4 raw)))

keep-dash :
    (t u : Text)
    → keep is_significant (t ++ (b'-' ∷ u)) ≡ keep is_significant t ++ keep is_significant u
unfolding is_space
keep-dash t u = keep-append is_significant t (b'-' ∷ u)

-- The display form of 16 characters, and those characters, differ only by hyphens.
keep-display :
    (raw : Text)
    → length raw ≡ code_chars
    → keep is_significant (display raw) ≡ keep is_significant raw
unfolding display
keep-display raw h =
    simp keep-dash (simp (← keep-append) (ap (keep is_significant) (concat_groups raw h)))

normalize-display : (raw : Text) → length raw ≡ code_chars → normalize (display raw) ≡ normalize raw
normalize-display raw h =
    normalize-eq-map (display raw)
    ∙ ap (map normalize_char) (keep-display raw h)
    ∙ sym (normalize-eq-map raw)

keep-lower : (s : Text) → keep is_significant (lower s) ≡ lower (keep is_significant s)
unfolding lower
keep-lower [] = refl
keep-lower (c ∷ s) = ground (arith, significant-lower_char c, keep-lower s)

map-normalize_char-lower : (s : Text) → map normalize_char (lower s) ≡ map normalize_char s
unfolding lower normalize_char
map-normalize_char-lower [] = refl
map-normalize_char-lower (c ∷ s) = cc (upper_char-lower_char c, map-normalize_char-lower s)

-- A code typed in lower-case letters normalises like the code itself.
normalize-lower : (code : Text) → normalize (lower code) ≡ normalize code
normalize-lower code =
    rw (normalize-eq-map (lower code), keep-lower code)
      (map-normalize_char-lower (keep is_significant code) ∙ sym (normalize-eq-map code))

-- For 16 characters of the Crockford alphabet, the code that is displayed with its hyphens, the
-- same in lower case, and the characters themselves all normalise to the characters.
pub normalize-display_crockford :
    (raw : Text)
    → length raw ≡ code_chars
    → AllTrue is_crockford raw
    → (normalize (display raw) ≡ raw)
      × (normalize (lower (display raw)) ≡ raw)
      × (normalize raw ≡ raw)
normalize-display_crockford raw h a =
    let same : normalize raw ≡ raw =
      normalize-eq-map raw
      ∙ ap (map normalize_char) (keep-crockford raw a)
      ∙ map-normalize_char-crockford raw a in
    let shown : normalize (display raw) ≡ raw = normalize-display raw h ∙ same in
    (shown, normalize-lower (display raw) ∙ shown, same)
