-- ===== src/Usbguard.antt =====
-- usbguard_defense/usbguard_iface.py: what the `usbguard` tool lists, and the policies it is given.
use usb_defense_system.Prelude.{
  ℕ, Bool, ◌&&◌, Option, none, some, List, [], ◌∷◌, if◌then◌else◌, Text, codes, text_eq, lower,
  strip, strip_chars, split, words, cut_at, parse_int, lines, ◌==◌, first,
}
use usb_defense_system.Exec.{Result, ok, then_do}

pub record UsbGuardDevice : Type 0 where
  pub device_id : ℕ
  pub target : Text
  pub name : Text
  pub vendor_id : Text
  pub product_id : Text
  pub serial : Text

-- The first piece of a split, which always has one.
abbrev first_piece : List Text → Text
first_piece [] = []
first_piece (t ∷ ts) = t

-- The two ids of a token "vid:pid", unless it has another number of parts.
abbrev set_ids : List Text → UsbGuardDevice → UsbGuardDevice
set_ids (v ∷ p ∷ []) d = record d { vendor_id = lower v; product_id = lower p }
set_ids _ d = d

-- What stands between `name "` and the next quote; `none` is the `ValueError` of `index`.
abbrev quoted_name : Text → Option Text
quoted_name rest = elim (cut_at (codes "name \"") rest) [
  | none ↦ none
  | some (_, after) ↦ elim (cut_at (b'"' ∷ []) after) [ none ↦ none | some (name, _) ↦ some name ]
]

abbrev set_name : Text → Text → Text → UsbGuardDevice → Option UsbGuardDevice
set_name token next rest d =
    if text_eq token (codes "name")
    then elim (quoted_name rest) [ none ↦ none | some n ↦ some (record d { name = n }) ]
    else some d

abbrev set_ids_and_serial : Text → Text → UsbGuardDevice → UsbGuardDevice
set_ids_and_serial token next d =
    let d' = if text_eq token (codes "id") then set_ids (split b':' next) d else d in
    if text_eq token (codes "serial")
    then record d' { serial = strip_chars (λ c. c == b'"') next }
    else d'

-- The loop over the tokens. The last token has no token behind it, and sets nothing.
unfoldable pub scan_tokens : Text → List Text → UsbGuardDevice → Option UsbGuardDevice
scan_tokens rest [] d = some d
scan_tokens rest (token ∷ []) d = some d
scan_tokens rest (token ∷ next ∷ more) d =
    elim (set_name token next rest (set_ids_and_serial token next d)) [
      | none ↦ none
      | some d' ↦ scan_tokens rest (next ∷ more) d'
    ]

abbrev parse_rest : ℕ → Text → Option UsbGuardDevice
parse_rest device_id rest = scan_tokens rest (words rest) (record {
  device_id = device_id;
  target = first_piece (split b' ' rest);
  name = [];
  vendor_id = [];
  product_id = [];
  serial = [];
})

unfoldable pub parse_device_line : Text → Option UsbGuardDevice
unfolding scan_tokens
parse_device_line line = elim (cut_at (b':' ∷ []) line) [
  | none ↦ none
  | some (number, rest) ↦ elim (parse_int number) [
    | none ↦ none
    | some device_id ↦ parse_rest device_id (strip rest)
  ]
]

unfoldable pub parse_devices : List Text → List UsbGuardDevice
unfolding parse_device_line
parse_devices [] = []
parse_devices (line ∷ rest) =
    let more = parse_devices rest in
    elim (parse_device_line line) [ none ↦ more | some d ↦ d ∷ more ]

-- What `subprocess.run` of the tool gives. `listing` is `usbguard list-devices`: its output, or `none`
-- where its exit code is not 0; `applied` is `usbguard apply-device-policy`: whether its exit code is 0.
-- Either raises an `OSError` where the tool cannot be run (a `FileNotFoundError` where it is missing).
pub record Tool : Type 0 where
  pub listing : Result (Option Text)
  pub applied : Result Bool

abbrev listed_devices : Option Text → List UsbGuardDevice
listed_devices none = []
listed_devices (some stdout) = parse_devices (lines (strip stdout))

-- `list_devices`, which does not catch what `subprocess.run` raises
unfoldable pub list_devices : Tool → Result (List UsbGuardDevice)
unfolding parse_devices
list_devices tool = then_do tool.listing λ stdout. ok (listed_devices stdout)

abbrev pub has_fingerprint : Text → Text → Text → UsbGuardDevice → Bool
has_fingerprint vendor_id product_id serial d =
    text_eq d.vendor_id vendor_id && text_eq d.product_id product_id && text_eq d.serial serial

unfoldable pub find_by_fingerprint : Tool → Text → Text → Text → Result (Option UsbGuardDevice)
unfolding list_devices
find_by_fingerprint tool vendor_id product_id serial =
    then_do (list_devices tool)
      λ ds. ok (first (has_fingerprint (lower vendor_id) (lower product_id) serial) ds)

pub data Target : Type 0 where
  allow block reject : Target

-- A call of `usbguard apply-device-policy`
pub record Policy : Type 0 where
  pub device_id : ℕ
  pub target : Target
