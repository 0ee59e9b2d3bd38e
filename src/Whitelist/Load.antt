-- ===== src/Whitelist/Load.antt =====
-- Which files are trusted.
use usb_defense_system.Prelude.{
  ◌≡◌, refl, ◌≢◌, true, false, Option, none, some, List, [], Text, strip, arith, Option-cases, inl,
  inr,
}
use usb_defense_system.Exec.{ok}
use usb_defense_system.Json.{Json}
use usb_defense_system.Platform.{Platform}
use usb_defense_system.Files.{File, FileSystem, whitelist_path, whitelist_sig_path}
use usb_defense_system.Integrity.{verify}
use usb_defense_system.Whitelist.{WhitelistEntry, Store, load, load_payload, parse_entries}

-- The whitelist file is there, parses as `es`, and carries a valid signature under the key.
pub record IsSigned (P : Platform) (key : Text) (fs : FileSystem) (es : List WhitelistEntry)
    : Type 0 where
  pub file : File
  pub sig : File
  pub found : fs whitelist_path ≡ some file
  pub sig_found : fs whitelist_sig_path ≡ some sig
  pub valid : verify P file.content key (strip sig.content) ≡ true
  pub json : Json
  pub decoded : P.loads file.content ≡ some json
  pub parsed : parse_entries json ≡ ok es

module _ (P : Platform) where
  load_payload-decoded :
      (raw : Text) (s : Store) {s' : Store}
      → load_payload P raw s ≡ (ok tt, s')
      → s'.entries ≢ []
      → (j : Json) × (P.loads raw ≡ some j) × (parse_entries j ≡ ok s'.entries)
  unfolding load_payload
  load_payload-decoded raw s {s'} h n = elim (Option-cases (P.loads raw)) [
    | inl e ↦ absurd (n (ground (arith, e)))
    | inr (j, e) ↦ (j, e, ground (arith, e))
  ]

  load_payload-integrity :
      (raw : Text) (s : Store) {s' : Store}
      → load_payload P raw s ≡ (ok tt, s')
      → s'.entries ≢ []
      → s'.integrity_failed ≡ false
  unfolding load_payload
  load_payload-integrity raw s h n = ground arith

  load-payload :
      (f g : File) (key : Text) (s : Store) {s' : Store}
      → s.master_key ≡ some key
      → s.files whitelist_path ≡ some f
      → s.files whitelist_sig_path ≡ some g
      → load P s ≡ (ok tt, s')
      → s'.entries ≢ []
      → (verify P f.content key (strip g.content) ≡ true)
        × (load_payload P f.content s ≡ (ok tt, s'))
  unfolding load
  load-payload f g key s k e x h n = (ground (arith, k, e, x), ground (arith, k, e, x))

  load-files :
      (key : Text) (s : Store) {s' : Store}
      → s.master_key ≡ some key
      → load P s ≡ (ok tt, s')
      → s'.entries ≢ []
      → (s.files whitelist_path ≢ none) × (s.files whitelist_sig_path ≢ none)
  unfolding load
  load-files key s k h n = (λ e. ground arith, λ e. ground arith)

  -- With a master key, a load that ends with any entry has read them from a whitelist file whose
  -- signature file verifies under that key, and has not set `integrity_failed`.
  pub load_trusts-IsSigned :
      (s s' : Store) (key : Text)
      → s.master_key ≡ some key
      → load P s ≡ (ok tt, s')
      → s'.entries ≢ []
      → IsSigned P key s.files s'.entries × (s'.integrity_failed ≡ false)
  load_trusts-IsSigned s s' key k h n =
      let (present, signed) = load-files key s k h n in
      signed_files (s.files whitelist_path) (s.files whitelist_sig_path) present signed refl refl
    where
      signed_files :
          (o p : Option File)
          → o ≢ none
          → p ≢ none
          → s.files whitelist_path ≡ o
          → s.files whitelist_sig_path ≡ p
          → IsSigned P key s.files s'.entries × (s'.integrity_failed ≡ false)
      signed_files none p a b e x = absurd (a refl)
      signed_files (some f) none a b e x = absurd (b refl)
      signed_files (some f) (some g) a b e x =
          let (valid, payload) = load-payload f g key s k e x h n in
          let (json, decoded, parsed) = load_payload-decoded f.content s payload n in
          (
            record {
              file = f;
              sig = g;
              found = e;
              sig_found = x;
              valid = valid;
              json = json;
              decoded = decoded;
              parsed = parsed;
            },
            load_payload-integrity f.content s payload n,
          )
