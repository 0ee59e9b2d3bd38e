-- ===== src/Whitelist/Matching.antt =====
-- The entries as a map from devices to entries: what `match` finds after `add` and `remove`.
use usb_defense_system.Prelude.{
  ◌≡◌, refl, Bool, true, not, Option, none, some, List, [], ◌∷◌, ◌++◌, if◌then◌else◌, Text, lower,
  text_eq_iff, text_eq_refl, keep, first, arith, ap, sym, length, ◌≤◌, keep-append, length-append,
}
use native.Mathlib.Nat.{le_trans}
use usb_defense_system.Json.{Json, str, py_eq}
use usb_defense_system.Whitelist.{
  WhitelistEntry, is_device, same_device, match_entry, added, removed,
}

py_eq-str : (a : Json) (t : Text) → py_eq a (str t) ≡ true → a ≡ str t
unfolding py_eq
py_eq-str (str s) t h = ap str ((text_eq_iff s t).0 h)
py_eq-str a t h = ground arith

pub py_eq-str_refl : (t : Text) → py_eq (str t) (str t) ≡ true
unfolding py_eq
py_eq-str_refl t = text_eq_refl t

-- A value that a text equals is equal to what the text is equal to.
py_eq-str_sym : (t : Text) (a : Json) → py_eq (str t) a ≡ true → a ≡ str t
unfolding py_eq
py_eq-str_sym t (str s) h = ap str (sym ((text_eq_iff t s).0 h))
py_eq-str_sym t a h = ground arith

-- A value that is equal to a text stands for that text in every comparison.
field-text :
    (a b : Json) (t : Text) → py_eq a (str t) ≡ true → py_eq a b ≡ true → py_eq b (str t) ≡ true
field-text a b t h k = rw (py_eq-str_sym t b (rw (py_eq-str a t h) at k)) (py_eq-str_refl t)

text-field :
    (a b : Json) (t : Text) → py_eq a (str t) ≡ true → py_eq b (str t) ≡ true → py_eq a b ≡ true
text-field a b t h k = rw (py_eq-str a t h, py_eq-str b t k) (py_eq-str_refl t)

module _ (v p s : Text) where
  same-device :
      (entry e : WhitelistEntry)
      → is_device v p s e ≡ true
      → same_device entry e ≡ true
      → is_device v p s entry ≡ true
  same-device entry e d h = ground (
    arith,
    field-text e.vendor_id entry.vendor_id v,
    field-text e.product_id entry.product_id p,
    field-text e.serial entry.serial s,
  )

  device-same :
      (entry e : WhitelistEntry)
      → is_device v p s e ≡ true
      → is_device v p s entry ≡ true
      → same_device entry e ≡ true
  device-same entry e d h = ground (
    arith,
    text-field e.vendor_id entry.vendor_id v,
    text-field e.product_id entry.product_id p,
    text-field e.serial entry.serial s,
  )

  first-added :
      (entry : WhitelistEntry) (es : List WhitelistEntry)
      → first (is_device v p s) (keep (λ e. not (same_device entry e)) es ++ entry ∷ [])
        ≡ (if is_device v p s entry then some entry else first (is_device v p s) es)
  first-added entry [] = refl
  first-added entry (e ∷ es) =
      ground (arith, first-added entry es, same-device entry e, device-same entry e)

-- After `add(entry)`, `match` finds that entry for a vendor and a product whose lower-case forms are
-- the entry's, with the entry's serial, and for everything else finds what it found before: `add`
-- replaces one entry and disturbs no other. (An entry whose ids are not in lower case is found for no
-- device.)
pub match_entry-added :
    (entry : WhitelistEntry) (es : List WhitelistEntry) (vendor_id product_id serial : Text)
    → match_entry (added entry es) vendor_id product_id serial ≡ (
        if is_device (lower vendor_id) (lower product_id) serial entry
        then some entry
        else match_entry es vendor_id product_id serial)
unfolding match_entry added
match_entry-added entry es v p s = first-added (lower v) (lower p) s entry es

-- What is left of a match when the entries of one id are gone.
abbrev pub unless_id : Json → Option WhitelistEntry → Option WhitelistEntry
unless_id entry_id none = none
unless_id entry_id (some e) = if py_eq e.id entry_id then none else some e

-- At most one entry stands for any device.
abbrev pub IsUnambiguous : List WhitelistEntry → Type 0
IsUnambiguous es = (v p s : Text) → length (keep (is_device v p s) es) ≤ 1

module _ (v p s : Text) where
  keep_device-added :
      (entry : WhitelistEntry) (es : List WhitelistEntry)
      → is_device v p s entry ≡ true
      → keep (is_device v p s) (keep (λ e. not (same_device entry e)) es) ≡ []
  keep_device-added entry [] h = refl
  keep_device-added entry (e ∷ es) h =
      ground (arith, keep_device-added entry es h, device-same v p s entry e)

  length-keep-keep :
      (q : WhitelistEntry → Bool) (es : List WhitelistEntry)
      → length (keep (is_device v p s) (keep q es)) ≤ length (keep (is_device v p s) es)
  length-keep-keep q [] = omega arith
  length-keep-keep q (e ∷ es) = ground (arith, length-keep-keep q es)

  length_device-added :
      (entry : WhitelistEntry) (es : List WhitelistEntry)
      → length (keep (is_device v p s) es) ≤ 1
      → length (keep (is_device v p s) (keep (λ e. not (same_device entry e)) es ++ entry ∷ [])) ≤ 1
  length_device-added entry es h = rw (keep-append (is_device v p s)) (
      ground (
        arith,
        keep_device-added entry es,
        length-keep-keep (λ e. not (same_device entry e)) es,
        length-append (keep (is_device v p s) (keep (λ e. not (same_device entry e)) es))
            (entry ∷ []),
        length-append (keep (is_device v p s) (keep (λ e. not (same_device entry e)) es)) [],
      ))

  first-eq-none :
      (es : List WhitelistEntry)
      → length (keep (is_device v p s) es) ≤ 0
      → (q : WhitelistEntry → Bool) → first (is_device v p s) (keep q es) ≡ none
  first-eq-none [] h q = refl
  first-eq-none (e ∷ es) h q = ground (arith, first-eq-none es _ q)

  first-removed :
      (entry_id : Json) (es : List WhitelistEntry)
      → length (keep (is_device v p s) es) ≤ 1
      → first (is_device v p s) (keep (λ e. not (py_eq e.id entry_id)) es)
        ≡ unless_id entry_id (first (is_device v p s) es)
  first-removed entry_id [] h = refl
  first-removed entry_id (e ∷ es) h =
      ground (arith, first-removed entry_id es, first-eq-none es _ (λ e. not (py_eq e.id entry_id)))

-- From a list in which at most one entry stands for any device, `add` makes such a list.
pub added-IsUnambiguous :
    (entry : WhitelistEntry) (es : List WhitelistEntry)
    → IsUnambiguous es
    → IsUnambiguous (added entry es)
unfolding added
added-IsUnambiguous entry es u = λ v p s. length_device-added v p s entry es (u v p s)

-- Where at most one entry stands for any device: after `remove(entry_id)`, `match` finds for every
-- device what it found before, except that it finds nothing where it found an entry with that id.
-- The list that is left again has at most one entry for any device.
pub match_entry-removed :
    (entry_id : Json) (es : List WhitelistEntry) (vendor_id product_id serial : Text)
    → IsUnambiguous es
    → (match_entry (removed entry_id es) vendor_id product_id serial
        ≡ unless_id entry_id (match_entry es vendor_id product_id serial))
      × IsUnambiguous (removed entry_id es)
unfolding match_entry removed
match_entry-removed entry_id es v p s u = (
  first-removed (lower v) (lower p) s entry_id es (u (lower v) (lower p) s),
  λ v p s. le_trans (length-keep-keep v p s _ es) (u v p s),
)
