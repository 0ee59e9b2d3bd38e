-- ===== src/Ui/Display.antt =====
-- What the user interface makes of JSON values and of times before it shows them.
use usb_defense_system.Prelude.{
  ℕ, Bool, true, false, ◌&&◌, ◌||◌, String, Option, none, some, [], ◌∷◌, ◌++◌, if◌then◌else◌, ltb,
  leb, ◌==◌, Text, codes, lower_char, upper_char, replace_char,
}
use usb_defense_system.Json.{Json, ℤ, str, obj, lookup, truthy}
use usb_defense_system.Exec.{Result, ok, err, attribute_error, then_do}
use usb_defense_system.Platform.{Platform}
use usb_defense_system.Daemon.State.{get_field}

-- What the screens take from the host of the user.
pub record Desktop : Type 0 where
  -- `datetime.fromisoformat`, where `none` is a `ValueError`, and the local time of an instant as
  -- `%H:%M:%S` and as `%Y-%m-%d %H:%M:%S`
  pub fromisoformat : Text → Option ℕ
  pub hms : ℕ → Text
  pub full : ℕ → Text
  -- `int(float(text))`, where `none` is a `ValueError`
  pub int_of_float : Text → Option ℤ
  -- `yaml.safe_dump`
  pub yaml_dump : Json → Text
  -- whether the user may read the event log
  pub log_readable : Bool

-- `value.get(key, default)`
abbrev pub json_get : String → Json → Json → Result Json
json_get key default (obj fs) = ok (get_field (lookup key fs) default)
json_get key default _ = err attribute_error

-- `f"{value}"`
abbrev pub shown : Platform → Json → Text
shown P (str s) = s
shown P j = P.show j

-- `iso_ts.replace("Z", "+00:00")`
unfoldable pub with_offset : Text → Text
with_offset [] = []
with_offset (c ∷ s) =
    let rest = with_offset s in if c == b'Z' then codes "+00:00" ++ rest else c ∷ rest

-- `_parse_iso`; `replace` raises on a value that is true and no text.
unfoldable pub parse_iso : Desktop → Json → Result (Option ℕ)
unfolding with_offset
parse_iso D (str []) = ok none
parse_iso D (str (c ∷ s)) = ok (D.fromisoformat (with_offset (c ∷ s)))
parse_iso D j = if truthy j then err attribute_error else ok none

abbrev hms_or : Platform → Desktop → Json → Option ℕ → Text
hms_or P D iso_ts none = if truthy iso_ts then shown P iso_ts else codes "??:??:??"
hms_or P D iso_ts (some instant) = D.hms instant

-- `_iso_to_local_hms`
unfoldable pub iso_to_local_hms : Platform → Desktop → Json → Result Text
unfolding parse_iso
iso_to_local_hms P D iso_ts = then_do (parse_iso D iso_ts) λ o. ok (hms_or P D iso_ts o)

abbrev full_or_empty : Desktop → Option ℕ → Text
full_or_empty D none = []
full_or_empty D (some instant) = D.full instant

-- `_iso_to_local_full`
unfoldable pub iso_to_local_full : Desktop → Json → Result Text
unfolding parse_iso
iso_to_local_full D iso_ts = then_do (parse_iso D iso_ts) λ o. ok (full_or_empty D o)

abbrev full_or_raw : Desktop → Json → Option ℕ → Json
full_or_raw D iso_ts none = iso_ts
full_or_raw D iso_ts (some instant) = str (D.full instant)

-- `format_local_time`
unfoldable pub format_local_time : Desktop → Json → Result Json
unfolding parse_iso
format_local_time D iso_ts =
    if truthy iso_ts
    then then_do (parse_iso D iso_ts) (λ o. ok (full_or_raw D iso_ts o))
    else ok (str [])

abbrev is_letter : ℕ → Bool
is_letter c = (leb b'A' c && leb c b'Z') || (leb b'a' c && leb c b'z')

-- `s.title()`; `inside` says that the character before was a letter.
unfoldable pub title_from : Bool → Text → Text
unfolding lower_char upper_char
title_from inside [] = []
title_from inside (c ∷ s) =
    (if inside then lower_char c else upper_char c) ∷ title_from (is_letter c) s

-- `kind.replace("_", " ").title()`
unfoldable pub title_of : Text → Text
unfolding title_from replace_char
title_of kind = title_from false (replace_char b'_' b' ' kind)

-- `a < b` on texts
unfoldable pub text_ltb : Text → Text → Bool
text_ltb s [] = false
text_ltb [] (d ∷ t) = true
text_ltb (c ∷ s) (d ∷ t) = ltb c d || (c == d && text_ltb s t)
