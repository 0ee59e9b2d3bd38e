-- ===== src/TtyLockdown/Watching.antt =====
-- What `TTYActiveWatcher._run` reports of the readings.
use usb_defense_system.Prelude.{
  ◌≡◌, refl, sym, ap, ◌∙◌, Bool, true, false, ◌||◌, List, [], ◌∷◌, Text, arith, if◌then◌else◌,
  text_eq, text_eq_iff, text_eq_refl,
}
use usb_defense_system.TtyLockdown.{poll, watch_from, watch}

-- The readings that differ from the one before, without the empty ones and without the baseline.
abbrev pub changes : Text → Text → List Text → List Text
changes baseline previous [] = []
changes baseline previous (current ∷ rest) =
    if text_eq current []
    then changes baseline previous rest
    else if text_eq current previous || text_eq current baseline
    then changes baseline current rest
    else current ∷ changes baseline current rest

-- What `last_reported` stands for: the reading before, which was the baseline where it is empty.
abbrev before : Text → Text → Text
before baseline last_reported = if text_eq last_reported [] then baseline else last_reported

text_eq-nil_sym : (b : Text) → text_eq b [] ≡ false → text_eq [] b ≡ false
unfolding text_eq
text_eq-nil_sym [] h = h
text_eq-nil_sym (c ∷ s) h = refl

watch_from-eq :
    (baseline last_reported : Text) (rounds : List Text)
    → text_eq baseline [] ≡ false
    → text_eq last_reported baseline ≡ false
    → watch_from baseline last_reported rounds
      ≡ changes baseline (before baseline last_reported) rounds
unfolding watch_from poll
watch_from-eq b l [] h k = refl
watch_from-eq b l (c ∷ rest) h k =
    by_tests (text_eq c []) (text_eq c b) (text_eq c l) refl refl refl
      (λ l' k'. watch_from-eq b l' rest h k')
  where
    nonempty : text_eq [] b ≡ false
    nonempty = text_eq-nil_sym b h

    by_tests :
        (e s r : Bool)
        → text_eq c [] ≡ e
        → text_eq c b ≡ s
        → text_eq c l ≡ r
        → ((l' : Text) → text_eq l' b ≡ false → watch_from b l' rest ≡ changes b (before b l') rest)
        → watch_from b l (c ∷ rest) ≡ changes b (before b l) (c ∷ rest)
    by_tests true s r x y z rec =
        let other : text_eq c b ≡ false = rw ((text_eq_iff c []).0 x) nonempty in
        ground (arith, x, other, rec l k)
    by_tests false true r x y z rec = ground (
      arith,
      x,
      y,
      rec [] nonempty,
      text_eq_refl [],
      ap (λ (p : Text). changes b p rest) ((text_eq_iff c b).0 y),
    )
    by_tests false false true x y z rec =
        let same = (text_eq_iff c l).0 z in
        let some_text : text_eq l [] ≡ false = rw (sym same) x in
        let at_l : before b l ≡ l = rw some_text refl in
        ground (
          arith,
          x,
          y,
          z,
          at_l,
          rec l k,
          ap (λ (p : Text). changes b p rest) same,
          ap (λ (p : Text). text_eq c p) at_l,
        )
    by_tests false false false x y z rec = ground (arith, x, y, z, rec c y)

-- Where the console could be read when the watch began, what the callback is given during one run
-- of the watcher is exactly the changes of the foreground console: each reading that is not empty,
-- is not the console of the beginning and differs from the non-empty reading before it.
pub watch-eq-changes :
    (baseline : Text) (rounds : List Text)
    → text_eq baseline [] ≡ false
    → watch baseline rounds ≡ changes baseline baseline rounds
unfolding watch
watch-eq-changes baseline rounds h =
    watch_from-eq baseline [] rounds h (text_eq-nil_sym baseline h)
    ∙ ap (λ (p : Text). changes baseline p rounds) (rw (text_eq_refl []) refl)
