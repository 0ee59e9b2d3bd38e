-- ===== src/Whitelist.antt =====
-- usbguard_defense/whitelist.py: the entries, their file and its signature.
pub mod Load
pub mod Save
pub mod Reload
pub mod Frame
pub mod Success
pub mod Matching
use usb_defense_system.Prelude.{
  ℕ, Bool, true, false, not, ◌&&◌, ◌||◌, String, Option, none, some, List, [], ◌∷◌, ◌++◌, map,
  if◌then◌else◌, str_eq, Text, codes, lower, strip, keep, first, length, ltb, is_some,
}
use usb_defense_system.Json.{
  Json, bool, obj, num, lit, Items, nil, cons, Fields, end, field, null, str, int, arr, lookup,
  py_eq, to_items, truthy,
}
use usb_defense_system.Exec.{
  Result, ok, err, Exec, pure, attribute_error, type_error, then_do, continue, ◌>>=◌, ◌>>◌,
}
use usb_defense_system.Platform.{Platform}
use usb_defense_system.Files.{
  FileSystem, File, Call, required, best_effort, run_calls, write, replace, chmod, toggle_immutable,
  whitelist_path, whitelist_tmp, whitelist_sig_path, whitelist_sig_tmp, exists, read_file,
}
use usb_defense_system.Integrity.{sign, verify}

-- The annotations say `str` and `bool`; neither the file nor a client is held to them.
pub record WhitelistEntry : Type 0 where
  pub id : Json
  pub label : Json
  pub vendor_id : Json
  pub product_id : Json
  pub serial : Json
  pub device_class : Json
  pub added_by : Json
  pub added_at : Json
  pub can_unlock : Json

-- `value.lower()`
abbrev pub lowered : Json → Result Json
lowered (str s) = ok (str (lower s))
lowered _ = err attribute_error

-- `WhitelistEntry.new`; `uuid` and `now` are what `uuid4` and the clock return.
unfoldable pub new_entry :
    Text → Text → Json → Json → Json → Json → Json → Json → Bool → Result WhitelistEntry
new_entry uuid now label vendor_id product_id serial device_class added_by can_unlock =
    then_do (lowered vendor_id) λ vendor. then_do (lowered product_id) λ product. ok (record {
      id = str uuid;
      label = label;
      vendor_id = vendor;
      product_id = product;
      serial = serial;
      device_class = device_class;
      added_by = added_by;
      added_at = str now;
      can_unlock = bool can_unlock;
    })

-- `asdict(e)`
unfoldable pub asdict : WhitelistEntry → Json
asdict e = obj (
    field "id" e.id (
      field "label" e.label (
        field "vendor_id" e.vendor_id (
          field "product_id" e.product_id (
            field "serial" e.serial (
              field "device_class" e.device_class (
                field "added_by" e.added_by
                  (field "added_at" e.added_at (field "can_unlock" e.can_unlock end)))))))))

abbrev is_attribute : String → Bool
is_attribute k =
    str_eq k "id"
    || str_eq k "label"
    || str_eq k "vendor_id"
    || str_eq k "product_id"
    || str_eq k "serial"
    || str_eq k "device_class"
    || str_eq k "added_by"
    || str_eq k "added_at"
    || str_eq k "can_unlock"

unfoldable pub known_keys : Fields → Bool
known_keys end = true
known_keys (field k v fs) = is_attribute k && known_keys fs

abbrev argument : String → Fields → Result Json
argument k fs = elim (lookup k fs) [ none ↦ err type_error | some v ↦ ok v ]

abbrev argument_or : String → Json → Fields → Json
argument_or k default fs = elim (lookup k fs) [ none ↦ default | some v ↦ v ]

-- `WhitelistEntry(**e)`
unfoldable pub entry_of : Json → Result WhitelistEntry
unfolding known_keys lookup
entry_of (obj fs) =
    if not (known_keys fs)
    then err type_error
    else then_do (argument "id" fs) λ id. then_do (argument "label" fs) λ label.
      then_do (argument "vendor_id" fs) λ vendor_id.
        then_do (argument "product_id" fs) λ product_id. then_do (argument "serial" fs) λ serial.
          then_do (argument "device_class" fs) λ device_class.
            then_do (argument "added_by" fs) λ added_by.
              then_do (argument "added_at" fs) λ added_at. ok (record {
                id = id;
                label = label;
                vendor_id = vendor_id;
                product_id = product_id;
                serial = serial;
                device_class = device_class;
                added_by = added_by;
                added_at = added_at;
                can_unlock = argument_or "can_unlock" (bool false) fs;
              })
entry_of _ = err type_error

unfoldable pub entries_of_items : Items → Result (List WhitelistEntry)
unfolding entry_of
entries_of_items nil = ok []
entries_of_items (cons x xs) =
    then_do (entry_of x) λ e. then_do (entries_of_items xs) λ es. ok (e ∷ es)

-- `[WhitelistEntry(**e) for e in devices]`: an empty text or object has nothing to iterate over.
abbrev devices_of : Json → Result (List WhitelistEntry)
devices_of (arr xs) = entries_of_items xs
devices_of (obj end) = ok []
devices_of (str []) = ok []
devices_of _ = err type_error

abbrev entries_of : Json → Result (List WhitelistEntry)
entries_of (obj fs) = devices_of (argument_or "devices" (arr nil) fs)
entries_of _ = err attribute_error

unfoldable pub parse_entries : Json → Result (List WhitelistEntry)
unfolding entries_of_items lookup
parse_entries j = entries_of j

-- The object that `save` writes.
unfoldable pub document : List WhitelistEntry → Json
unfolding asdict
document es = obj (field "version" (num 1) (field "devices" (arr (to_items (map asdict es))) end))

-- A `Whitelist` object with the file system that it works on.
pub record Store : Type 0 where
  pub files : FileSystem
  pub master_key : Option Text
  pub entries : List WhitelistEntry
  pub integrity_failed : Bool

abbrev pub loaded : List WhitelistEntry → Bool → Exec Store (Unit {0})
loaded es failed s = (ok tt, record s { entries = es; integrity_failed = failed })

-- Every reason to distrust the file.
abbrev pub fail_closed : Exec Store (Unit {0})
fail_closed = loaded [] true

module _ (P : Platform) where
  abbrev accept : Result (List WhitelistEntry) → Exec Store (Unit {0})
  accept (ok es) s = loaded es false s
  accept (err e) s = (err e, s)

  unfoldable pub load_payload : Text → Exec Store (Unit {0})
  load_payload raw = elim (P.loads raw) [ none ↦ fail_closed | some j ↦ accept (parse_entries j) ]

  abbrev check_signature : Text → Text → Result Text → Exec Store (Unit {0})
  check_signature raw key (err e) = fail_closed
  check_signature raw key (ok text) =
      if verify P raw key (strip text) then load_payload raw else fail_closed

  abbrev load_signed : Text → Option Text → Exec Store (Unit {0})
  load_signed raw none s = load_payload raw s
  load_signed raw (some key) s =
      if exists s.files whitelist_sig_path
      then check_signature raw key (read_file (s.files whitelist_sig_path)) s
      else fail_closed s

  abbrev load_file : Option File → Exec Store (Unit {0})
  load_file none s = loaded [] false s
  load_file (some f) s = load_signed f.content s.master_key s

  -- `_load`
  unfoldable pub load : Exec Store (Unit {0})
  unfolding load_payload
  load s = load_file (s.files whitelist_path) s

  -- The calls of `save` that are made only with a key.
  abbrev with_key : Option Text → (Text → List Call) → List Call
  with_key none f = []
  with_key (some key) f = f key

  -- The calls of `save` for a payload, in order.
  unfoldable pub save_calls : Option Text → Text → List Call
  save_calls master_key payload =
      (required (toggle_immutable whitelist_path false) ∷ [])
      ++ (with_key master_key (λ _. required (toggle_immutable whitelist_sig_path false) ∷ [])
          ++ (required (write whitelist_tmp payload)
              ∷ required (replace whitelist_tmp whitelist_path)
              ∷ best_effort (chmod whitelist_path 0o600)
              ∷ (with_key master_key (λ key.
                    required (write whitelist_sig_tmp (sign P payload key))
                    ∷ required (replace whitelist_sig_tmp whitelist_sig_path)
                    ∷ best_effort (chmod whitelist_sig_path 0o600)
                    ∷ [])
                  ++ (required (toggle_immutable whitelist_path true)
                      ∷ with_key master_key
                          (λ _. required (toggle_immutable whitelist_sig_path true) ∷ [])))))

  abbrev saved : Result (Unit {0}) × FileSystem → Exec Store (Unit {0})
  saved (ok _, fs) s = (ok tt, record s { files = fs; integrity_failed = false })
  saved (err e, fs) s = (err e, record s { files = fs })

  unfoldable pub save : Exec Store (Unit {0})
  save s = saved (run_calls P (save_calls s.master_key (P.dumps (document s.entries))) s.files) s

abbrev pub is_device : Text → Text → Text → WhitelistEntry → Bool
is_device vendor_id product_id serial e =
    py_eq e.vendor_id (str vendor_id)
    && py_eq e.product_id (str product_id)
    && py_eq e.serial (str serial)

-- `match`
unfoldable pub match_entry : List WhitelistEntry → Text → Text → Text → Option WhitelistEntry
match_entry es vendor_id product_id serial =
    first (is_device (lower vendor_id) (lower product_id) serial) es

abbrev unlocks : Option WhitelistEntry → Bool
unlocks none = false
unlocks (some e) = truthy e.can_unlock

-- `can_unlock`, by the truth value of what it returns
unfoldable pub can_unlock : List WhitelistEntry → Text → Text → Text → Bool
can_unlock es vendor_id product_id serial = unlocks (match_entry es vendor_id product_id serial)

abbrev pub same_device : WhitelistEntry → WhitelistEntry → Bool
same_device entry e =
    py_eq e.vendor_id entry.vendor_id
    && py_eq e.product_id entry.product_id
    && py_eq e.serial entry.serial

-- The list that `add` saves: an entry for the same device is replaced.
unfoldable pub added : WhitelistEntry → List WhitelistEntry → List WhitelistEntry
added entry es = keep (λ e. not (same_device entry e)) es ++ entry ∷ []

unfoldable pub removed : Json → List WhitelistEntry → List WhitelistEntry
removed entry_id es = keep (λ e. not (py_eq e.id entry_id)) es

module _ (P : Platform) where
  unfoldable pub add : WhitelistEntry → Exec Store (Unit {0})
  add entry s = save P (record s { entries = added entry s.entries })

  unfoldable pub remove : Json → Exec Store Bool
  remove entry_id s =
      let kept = removed entry_id s.entries in
      let s' = record s { entries = kept } in
      if ltb (length kept) (length s.entries) then (save P >> pure true) s' else (ok false, s')
