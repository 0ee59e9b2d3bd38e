-- ===== src/Whitelist/Save.antt =====
-- What the calls of `save` leave on disk, at their end and where they are cut off.
use usb_defense_system.Prelude.{◌≡◌, refl, true, false, Option, none, some, [], ◌∷◌, Text, ◌∙◌}
use usb_defense_system.Platform.{Platform}
use usb_defense_system.Files.{
  FilePath, required, best_effort, write, replace, chmod, toggle_immutable, Returns, FileSystem,
  whitelist_path, whitelist_sig_path, whitelist_tmp, whitelist_sig_tmp,
}
use usb_defense_system.Integrity.{sign}
use usb_defense_system.Files.Content.{
  content_at, content-toggle, content-chmod, content-write, content-replace,
}
use usb_defense_system.Files.Runs.{Ensures, Stays}
use usb_defense_system.Whitelist.{save_calls}

-- The calls of `save` for a payload: the temporary file holds it before it is moved in place.
module _ (P : Platform) (payload : Text) where
  abbrev pub w : FilePath
  w = whitelist_path

  abbrev pub sg : FilePath
  sg = whitelist_sig_path

  -- The whitelist file and the signature file at the end of a `save`.
  abbrev pub IsSaved : Option Text → FileSystem → Type 0
  IsSaved none fs = content_at fs w ≡ some payload
  IsSaved (some key) fs =
      (content_at fs w ≡ some payload) × (content_at fs sg ≡ some (sign P payload key))

  pub save_calls-Ensures :
      (master_key : Option Text) (fs : FileSystem)
      → Ensures P (IsSaved master_key) (save_calls P master_key payload) fs
  unfolding save_calls
  save_calls-Ensures none fs = λ a ha c hc d hd e he i hi.
      content-toggle P w w true hi
      ∙ content-chmod P w w 0o600 he
      ∙ content-replace P whitelist_tmp w w hd
      ∙ content-write P whitelist_tmp whitelist_tmp payload hc
  save_calls-Ensures (some key) fs = λ a ha b hb c hc d hd e he f hf g hg h hh i hi j hj. (
    content-toggle P sg w true hj
        ∙ content-toggle P w w true hi
        ∙ content-chmod P sg w 0o600 hh
        ∙ content-replace P whitelist_sig_tmp sg w hg
        ∙ content-write P whitelist_sig_tmp w (sign P payload key) hf
        ∙ content-chmod P w w 0o600 he
        ∙ content-replace P whitelist_tmp w w hd
        ∙ content-write P whitelist_tmp whitelist_tmp payload hc,
    content-toggle P sg sg true hj
        ∙ content-toggle P w sg true hi
        ∙ content-chmod P sg sg 0o600 hh
        ∙ content-replace P whitelist_sig_tmp sg sg hg
        ∙ content-write P whitelist_sig_tmp whitelist_sig_tmp (sign P payload key) hf,
  )

  -- The whitelist file holds what it held before, or the payload: never a part of either.
  pub data IsWhole (before : Option Text) (fs : FileSystem) : Type 0 where
    old : content_at fs w ≡ before → IsWhole before fs
    new : content_at fs w ≡ some payload → IsWhole before fs

  pub keeps-IsWhole :
      {before : Option Text} {fs fs' : FileSystem}
      → content_at fs' w ≡ content_at fs w
      → IsWhole before fs
      → IsWhole before fs'
  keeps-IsWhole e (old o) = old (e ∙ o)
  keeps-IsWhole e (new n) = new (e ∙ n)

  pub save_calls-Stays :
      (master_key : Option Text) (fs : FileSystem)
      → Stays P (IsWhole (content_at fs w)) (save_calls P master_key payload) fs
  unfolding save_calls
  save_calls-Stays none fs = (
    old refl,
    λ a ha.
        let wa : IsWhole (content_at fs w) a = old (content-toggle P w w false ha) in
        (
          wa,
          λ c hc.
              let wc : IsWhole (content_at fs w) c =
                keeps-IsWhole (content-write P whitelist_tmp w payload hc) wa in
              (
                wc,
                λ d hd.
                    let wd : IsWhole (content_at fs w) d = new (
                      content-replace P whitelist_tmp w w hd
                      ∙ content-write P whitelist_tmp whitelist_tmp payload hc) in
                    (
                      wd,
                      λ e he.
                          let we : IsWhole (content_at fs w) e =
                            keeps-IsWhole (content-chmod P w w 0o600 he) wd in
                          (we, λ i hi. keeps-IsWhole (content-toggle P w w true hi) we),
                    ),
              ),
        ),
  )
  save_calls-Stays (some key) fs = (
    old refl,
    λ a ha.
        let wa : IsWhole (content_at fs w) a = old (content-toggle P w w false ha) in
        (
          wa,
          λ b hb.
              let wb : IsWhole (content_at fs w) b =
                keeps-IsWhole (content-toggle P sg w false hb) wa in
              (
                wb,
                λ c hc.
                    let wc : IsWhole (content_at fs w) c =
                      keeps-IsWhole (content-write P whitelist_tmp w payload hc) wb in
                    (
                      wc,
                      λ d hd.
                          let wd : IsWhole (content_at fs w) d = new (
                            content-replace P whitelist_tmp w w hd
                            ∙ content-write P whitelist_tmp whitelist_tmp payload hc) in
                          (
                            wd,
                            λ e he.
                                let we : IsWhole (content_at fs w) e =
                                  keeps-IsWhole (content-chmod P w w 0o600 he) wd in
                                (we, signature_calls e we),
                          ),
                    ),
              ),
        ),
  )
    where
      signature_calls :
          (e : FileSystem)
          → IsWhole (content_at fs w) e
          → (f : FileSystem)
          → Returns P (required (write whitelist_sig_tmp (sign P payload key))) e f
          → Stays P
              (IsWhole (content_at fs w))
              (required (replace whitelist_sig_tmp sg)
                ∷ best_effort (chmod sg 0o600)
                ∷ required (toggle_immutable w true)
                ∷ required (toggle_immutable sg true)
                ∷ [])
              f
      signature_calls e we f hf =
          let wf : IsWhole (content_at fs w) f =
            keeps-IsWhole (content-write P whitelist_sig_tmp w (sign P payload key) hf) we in
          (
            wf,
            λ g hg.
                let wg : IsWhole (content_at fs w) g =
                  keeps-IsWhole (content-replace P whitelist_sig_tmp sg w hg) wf in
                (
                  wg,
                  λ h hh.
                      let wh : IsWhole (content_at fs w) h =
                        keeps-IsWhole (content-chmod P sg w 0o600 hh) wg in
                      (
                        wh,
                        λ i hi.
                            let wi : IsWhole (content_at fs w) i =
                              keeps-IsWhole (content-toggle P w w true hi) wh in
                            (wi, λ j hj. keeps-IsWhole (content-toggle P sg w true hj) wi),
                      ),
                ),
          )
