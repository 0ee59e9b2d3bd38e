-- ===== src/Whitelist/Frame.antt =====
-- Which files `save` leaves alone.
use usb_defense_system.Prelude.{◌≡◌, false, Option, none, some, Text, arith, AllTrue}
use usb_defense_system.Json.{Json}
use usb_defense_system.Platform.{Platform}
use usb_defense_system.Files.{
  FilePath, path_eq, whitelist_path, whitelist_sig_path, whitelist_tmp, whitelist_sig_tmp,
}
use usb_defense_system.Files.Frame.{spares, run_calls-spared}
use usb_defense_system.Whitelist.{
  WhitelistEntry, Store, save, save_calls, add, added, remove, removed, document,
}

-- `save` touches no file but the whitelist, its signature and their temporary files.
module _ (P : Platform) (q : FilePath) where
  abbrev IsElsewhere : Type 0
  IsElsewhere =
      (path_eq q whitelist_path ≡ false)
      × (path_eq q whitelist_sig_path ≡ false)
      × (path_eq q whitelist_tmp ≡ false)
      × (path_eq q whitelist_sig_tmp ≡ false)

  save_calls-spared :
      (master_key : Option Text) (payload : Text)
      → IsElsewhere
      → AllTrue (spares q) (save_calls P master_key payload)
  unfolding save_calls
  save_calls-spared none payload (a, b, c, d) = ground arith
  save_calls-spared (some key) payload (a, b, c, d) = ground arith

  save-spared : (s : Store) → IsElsewhere → (save P s).1.files q ≡ s.files q
  unfolding save
  save-spared s h = ground (
    arith,
    run_calls-spared P q (save_calls P s.master_key (P.dumps (document s.entries))) s.files
        (save_calls-spared s.master_key (P.dumps (document s.entries)) h),
  )

  pub add-spared :
      (entry : WhitelistEntry) (s : Store) → IsElsewhere → (add P entry s).1.files q ≡ s.files q
  unfolding add
  add-spared entry s h = save-spared (record s { entries = added entry s.entries }) h

  pub remove-spared :
      (entry_id : Json) (s : Store) → IsElsewhere → (remove P entry_id s).1.files q ≡ s.files q
  unfolding remove
  remove-spared entry_id s h =
      ground (arith, save-spared (record s { entries = removed entry_id s.entries }) h)
