-- ===== src/Whitelist/Reload.antt =====
-- What a load makes of the files after a `save`, also after a crash in the middle of it.
use usb_defense_system.Prelude.{
  ◌≡◌, refl, ◌≢◌, true, false, Option, none, some, List, [], ◌∷◌, Text, strip, arith, ap, map, ℕ,
  ◌⊎◌, inl, inr, ◌∙◌, sym, if◌then◌else◌,
}
use mathlib.Core.Path.{subst}
use usb_defense_system.Exec.{Result, ok, err}
use usb_defense_system.Json.{to_items}
use usb_defense_system.Platform.{Platform}
use usb_defense_system.Files.{
  FileSystem, whitelist_path, whitelist_sig_path, run_calls, is_immutable, whitelist_tmp,
  whitelist_sig_tmp,
}
use usb_defense_system.Integrity.{verify, sign}
use usb_defense_system.Integrity.Laws.{verify_iff}
use usb_defense_system.Files.Content.{content_at}
use usb_defense_system.Files.Runs.{
  Ensures, run_calls-Ensures, run_calls-Stays, write_past, cut_off, cut_off-content,
}
use usb_defense_system.Whitelist.{
  WhitelistEntry, Store, load, load_payload, saved, fail_closed, parse_entries, save, save_calls,
  document, asdict, entry_of, entries_of_items,
}
use usb_defense_system.Whitelist.Success.{save-ok}
use usb_defense_system.Whitelist.Save.{
  IsSaved, IsWhole, old, new, keeps-IsWhole, save_calls-Ensures, save_calls-Stays,
}

entry_of-asdict : (e : WhitelistEntry) → entry_of (asdict e) ≡ ok e
unfolding entry_of asdict
entry_of-asdict e = refl

entries_of_items-asdict :
    (es : List WhitelistEntry) → entries_of_items (to_items (map asdict es)) ≡ ok es
unfolding entries_of_items
entries_of_items-asdict [] = refl
entries_of_items-asdict (e ∷ es) = rw (entry_of-asdict e) (rw (entries_of_items-asdict es))

-- Reading the entries back from the object that `save` writes gives those entries.
pub parse_entries-document : (es : List WhitelistEntry) → parse_entries (document es) ≡ ok es
unfolding parse_entries document
parse_entries-document es = entries_of_items-asdict es

-- What a load does, by the contents alone.
module _ (P : Platform) where
  load_unsigned :
      (s : Store) (raw : Text)
      → s.master_key ≡ none
      → content_at s.files whitelist_path ≡ some raw
      → load P s ≡ load_payload P raw s
  unfolding load
  load_unsigned s raw k e = ground (arith, k, e)

  load_signed :
      (s : Store) (raw key text : Text)
      → s.master_key ≡ some key
      → content_at s.files whitelist_path ≡ some raw
      → content_at s.files whitelist_sig_path ≡ some text
      → load P s ≡ (if verify P raw key (strip text) then load_payload P raw s else fail_closed s)
  unfolding load
  load_signed s raw key text k e x = ground (arith, k, e, x)

  load-outcome :
      (s : Store) (raw : Text)
      → content_at s.files whitelist_path ≡ some raw
      → (load P s ≡ load_payload P raw s) ⊎ (load P s ≡ fail_closed s)
  unfolding load
  load-outcome s raw e = ground (arith, e)

  load_payload-document :
      (s : Store)
      → P.loads (P.dumps (document s.entries)) ≡ some (document s.entries)
      → s.integrity_failed ≡ false
      → load_payload P (P.dumps (document s.entries)) s ≡ (ok tt, s)
  unfolding load_payload
  load_payload-document s d i = ground (arith, d, i, parse_entries-document s.entries)

  -- A signature as `sign` makes it: not empty, and with no white space to strip.
  abbrev pub IsSignature : Text → Type 0
  IsSignature t = (t ≢ []) × (strip t ≡ t)

  verify-sign :
      (raw key : Text)
      → IsSignature (sign P raw key)
      → verify P raw key (strip (sign P raw key)) ≡ true
  verify-sign raw key (n, s) = rw s ((verify_iff P raw key (sign P raw key)).1 (n, s))

  run-saved :
      (s : Store) {s' : Store}
      → save P s ≡ (ok tt, s')
      → (run_calls P (save_calls P s.master_key (P.dumps (document s.entries))) s.files
          ≡ (ok tt, s'.files))
        × (s'.entries ≡ s.entries)
        × (s'.master_key ≡ s.master_key)
        × (s'.integrity_failed ≡ false)
  unfolding save
  run-saved s {s'} h = ran (run_calls P _ s.files) h
    where
      ran :
          (r : Result (Unit {0}) × FileSystem)
          → saved P r s ≡ (ok tt, s')
          → (r ≡ (ok tt, s'.files))
            × (s'.entries ≡ s.entries)
            × (s'.master_key ≡ s.master_key)
            × (s'.integrity_failed ≡ false)
      ran (ok u, fs) made =
          let same = ap (λ (r : Result (Unit {0}) × Store). r.1) made in
          (
            ap (λ (t : Store). (ok tt, t.files)) same,
            sym (ap (λ (t : Store). t.entries) same),
            sym (ap (λ (t : Store). t.master_key) same),
            sym (ap (λ (t : Store). t.integrity_failed) same),
          )
      ran (err x, fs) made = absurd (ground arith)

  load_saved :
      (s s' : Store)
      → P.loads (P.dumps (document s.entries)) ≡ some (document s.entries)
      → ((key : Text) → IsSignature (sign P (P.dumps (document s.entries)) key))
      → save P s ≡ (ok tt, s')
      → (load P s' ≡ (ok tt, s')) × (s'.entries ≡ s.entries) × (s'.integrity_failed ≡ false)
  load_saved s s' d g h =
      let (ran, entries, key, clear) = run-saved s h in
      (
        by_key s.master_key refl (save_calls-Ensures P _ s.master_key s.files) ran entries key
            clear,
        entries,
        clear,
      )
    where
      payload : Text
      payload = P.dumps (document s.entries)

      reloaded :
          s'.entries ≡ s.entries
          → s'.integrity_failed ≡ false
          → load_payload P payload s' ≡ (ok tt, s')
      reloaded entries clear =
          subst (λ es. load_payload P (P.dumps (document es)) s' ≡ (ok tt, s')) entries
            (load_payload-document s'
              (subst (λ es. P.loads (P.dumps (document es)) ≡ some (document es)) (sym entries) d)
              clear)

      by_key :
          (k : Option Text)
          → s.master_key ≡ k
          → Ensures P (IsSaved P payload k) (save_calls P k payload) s.files
          → run_calls P (save_calls P k payload) s.files ≡ (ok tt, s'.files)
          → s'.entries ≡ s.entries
          → s'.master_key ≡ k
          → s'.integrity_failed ≡ false
          → load P s' ≡ (ok tt, s')
      by_key none e ens ran entries key clear =
          load_unsigned s' payload key (run_calls-Ensures P (IsSaved P payload none) _ _ _ ens ran)
          ∙ reloaded entries clear
      by_key (some k) e ens ran entries key clear =
          let (w, x) = run_calls-Ensures P (IsSaved P payload (some k)) _ _ _ ens ran in
          load_signed s' payload k (sign P payload k) key w x
          ∙ rw (verify-sign payload k (g k)) (reloaded entries clear)

  save_calls-past :
      (master_key : Option Text) (payload : Text)
      → write_past whitelist_path (save_calls P master_key payload) ≡ true
  unfolding save_calls
  save_calls-past none payload = refl
  save_calls-past (some key) payload = refl

  -- `save` cut off by a crash or an error, after any number of its calls and, if the next one is a
  -- write, with any text whatever in the file that it was writing: the next load either fails closed,
  -- or reads the old file's content, or reads the new payload, and nothing else.
  pub load_after_crash :
      (s : Store) (before payload partial : Text) (n : ℕ)
      → content_at s.files whitelist_path ≡ some before
      → let crashed : Store = record s {
        files = cut_off P partial n (save_calls P s.master_key payload) s.files;
      } in
        (load P crashed ≡ fail_closed crashed)
        ⊎ (load P crashed ≡ load_payload P before crashed)
        ⊎ (load P crashed ≡ load_payload P payload crashed)
  load_after_crash s before payload partial n e = whole (
      keeps-IsWhole P payload
        (cut_off-content P partial whitelist_path n (save_calls P s.master_key payload) s.files
          (save_calls-past s.master_key payload))
        (run_calls-Stays P (IsWhole P payload (content_at s.files whitelist_path)) _ s.files n
          (save_calls-Stays P payload s.master_key s.files)))
    where
      crashed : Store
      crashed = record s { files = cut_off P partial n (save_calls P s.master_key payload) s.files }

      whole :
          IsWhole P payload (content_at s.files whitelist_path) crashed.files
          → (load P crashed ≡ fail_closed crashed)
            ⊎ (load P crashed ≡ load_payload P before crashed)
            ⊎ (load P crashed ≡ load_payload P payload crashed)
      whole (old o) = elim (load-outcome crashed before (o ∙ e)) [
        | inl read ↦ inr (inl read)
        | inr failed ↦ inl failed
      ]
      whole (new o) = elim (load-outcome crashed payload o) [
        | inl read ↦ inr (inr read)
        | inr failed ↦ inl failed
      ]

  -- Where `chattr` works, no temporary file is immutable, the JSON codec reads back this document,
  -- and its HMAC is not empty and has no white space around it: `save` returns, with or without a
  -- master key, and loading the files that it leaves gives the same entries with `integrity_failed`
  -- clear, and changes nothing.
  pub load-save :
      (s : Store)
      → P.chattr_ok ≡ true
      → is_immutable (s.files whitelist_tmp) ≡ false
      → is_immutable (s.files whitelist_sig_tmp) ≡ false
      → P.loads (P.dumps (document s.entries)) ≡ some (document s.entries)
      → ((key : Text) → IsSignature (sign P (P.dumps (document s.entries)) key))
      → let (r, s') = save P s in
        (r ≡ ok tt)
        × (load P s' ≡ (ok tt, s'))
        × (s'.entries ≡ s.entries)
        × (s'.integrity_failed ≡ false)
  load-save s c i j d g =
      let done = save-ok P s c i j in
      let (again, same, clear) =
        load_saved s (save P s).1 d g (ap (λ (r : Result (Unit {0})). (r, (save P s).1)) done) in
      (done, again, same, clear)
