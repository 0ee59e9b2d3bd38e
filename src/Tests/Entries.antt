-- ===== src/Tests/Entries.antt =====
-- Witnesses for the whitelist: matching, loading and saving.
use usb_defense_system.Prelude.{
  ◌≡◌, ◌⊎◌, refl, Bool, true, false, some, [], ◌∷◌, codes, arith, strip, text_eq, strip_left,
  strip_chars, lower, if◌then◌else◌, is_space,
}
use usb_defense_system.Json.{lit, bool, lookup}
use usb_defense_system.Exec.{ok}
use usb_defense_system.Platform.{Platform}
use usb_defense_system.Files.{FileSystem, set_file, whitelist_path, whitelist_sig_path, run_calls}
use usb_defense_system.Integrity.{sign, verify}
use usb_defense_system.Whitelist.{
  WhitelistEntry, Store, match_entry, added, removed, is_device, document, asdict, load,
  load_payload, fail_closed, save, save_calls, parse_entries, entries_of_items, entry_of,
  known_keys,
}
use usb_defense_system.Whitelist.Matching.{
  match_entry-added, match_entry-removed, added-IsUnambiguous, IsUnambiguous, unless_id,
}
use usb_defense_system.Whitelist.Load.{IsSigned, load_trusts-IsSigned}
use usb_defense_system.Files.Runs.{cut_off}
use usb_defense_system.Whitelist.Reload.{IsSignature, load-save, load_after_crash}
use usb_defense_system.Tests.Host.{host_with, no_files, private_file, stick, store_of}

abbrev mouse : WhitelistEntry
mouse = record stick {
  id = lit "e2";
  label = lit "mouse";
  serial = lit "B2";
  can_unlock = bool false;
}

match_entry-added_example :
    match_entry (added mouse (stick ∷ [])) (codes "0781") (codes "5567") (codes "A1") ≡ (
      if is_device (lower (codes "0781")) (lower (codes "5567")) (codes "A1") mouse
      then some mouse
      else match_entry (stick ∷ []) (codes "0781") (codes "5567") (codes "A1"))
match_entry-added_example =
    match_entry-added mouse (stick ∷ []) (codes "0781") (codes "5567") (codes "A1")

one-IsUnambiguous : IsUnambiguous (stick ∷ [])
unfolding added
one-IsUnambiguous = added-IsUnambiguous stick [] (λ v p s. omega arith)

match_entry-removed_example :
    (match_entry (removed (lit "e1") (stick ∷ [])) (codes "0781") (codes "5567") (codes "A1")
      ≡ unless_id (lit "e1") (match_entry (stick ∷ []) (codes "0781") (codes "5567") (codes "A1")))
    × IsUnambiguous (removed (lit "e1") (stick ∷ []))
match_entry-removed_example =
    match_entry-removed (lit "e1") (stick ∷ []) (codes "0781") (codes "5567") (codes "A1")
      one-IsUnambiguous

abbrev codec : Platform
codec = host_with (document (stick ∷ []))

abbrev signed_files : FileSystem
signed_files =
    set_file whitelist_path (some (private_file (codes "{}")))
      (set_file whitelist_sig_path (some (private_file (codes "mac:{}"))) no_files)

abbrev signed_store : Store
signed_store = store_of signed_files

load_trusts-IsSigned_example :
    IsSigned codec (codes "key") signed_files (stick ∷ []) × (false ≡ false)
unfolding load load_payload parse_entries document asdict entries_of_items entry_of known_keys
    lookup verify sign strip text_eq strip_left strip_chars
load_trusts-IsSigned_example =
    load_trusts-IsSigned codec signed_store signed_store (codes "key") refl refl (λ e. cc)

abbrev after_save : Store
after_save = (save codec (store_of no_files)).1

macs : (b : Bool) → IsSignature codec (if b then codes "mac:{}" else codes "0")
unfolding strip strip_left strip_chars is_space
macs true = (λ e. cc, refl)
macs false = (λ e. cc, refl)

load-save_example :
    ((save codec (store_of no_files)).0 ≡ ok tt)
    × (load codec after_save ≡ (ok tt, after_save))
    × (after_save.entries ≡ stick ∷ [])
    × (after_save.integrity_failed ≡ false)
unfolding save save_calls run_calls sign text_eq
load-save_example =
    load-save codec (store_of no_files) refl refl refl refl
      (λ key. macs (text_eq key (codes "key")))

-- The crash comes while the temporary file is written.
abbrev crashed : Store
crashed = record signed_store {
  files =
      cut_off codec (codes "ne") 2 (save_calls codec (some (codes "key")) (codes "new"))
        signed_files;
}

load_after_crash_example :
    (load codec crashed ≡ fail_closed crashed)
    ⊎ (load codec crashed ≡ load_payload codec (codes "{}") crashed)
    ⊎ (load codec crashed ≡ load_payload codec (codes "new") crashed)
load_after_crash_example =
    load_after_crash codec signed_store (codes "{}") (codes "new") (codes "ne") 2 refl
